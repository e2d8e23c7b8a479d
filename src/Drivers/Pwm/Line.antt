-- ===== src/Drivers/Pwm/Line.antt =====
-- What each timer puts out, and that the control operation does to it what the command says.
use losangeles_lakers.Base.{
  ℕ, zero, suc, ◌+◌, ◌%◌, ◌^◌, ◌<◌, ◌≡◌, refl, ap, ◌∙◌, bit_or, List, [], ◌∷◌, arith, length, ok,
  ◌>>=◌, load, store, map,
}
use losangeles_lakers.Base.Bits.{bit, bit-or, bit-and}
use losangeles_lakers.Drivers.Pwm.{
  LoongsonPwm, Pwm, Code, Cmd, Configuration, eok, enosys, einval, enable, disable, set, get,
  other_cmd, without_en, ctrl_en, loongson_pwm_enable, loongson_pwm_disable, loongson_pwm_set,
  loongson_pwm_ioctl,
}

-- One output: whether it runs (1 or 0), its period, and how long it is low in each.
pub record Line : Type 0 where
  pub on : ℕ
  pub period : ℕ
  pub low : ℕ

unfoldable pub line_of : LoongsonPwm → Line
line_of chip = record { on = bit chip.ctrl 0; period = chip.full_buffer; low = chip.low_buffer }

-- What a command does to its output.
abbrev pub drive : Cmd → Configuration → Line → Line
drive enable cfg l = record l { on = 1 }
drive disable cfg l = record l { on = 0 }
drive set cfg l = record { on = 1; period = cfg.period; low = cfg.pulse }
drive _ cfg l = l

abbrev pub code_of_cmd : Cmd → Code
code_of_cmd get = enosys
code_of_cmd other_cmd = einval
code_of_cmd _ = eok

-- The list with its cell `i` changed by `g`.
abbrev pub change_at {ℓ} : {A : Type ℓ} → ℕ → (A → A) → List A → List A
change_at i g [] = []
change_at zero g (x ∷ xs) = g x ∷ xs
change_at (suc i) g (x ∷ xs) = x ∷ change_at i g xs

-- A cell read, changed and written back.
change_cell :
    {A : Type 0} (xs : List A) (i : ℕ) (g : A → A)
    → i < length xs
    → (x : A) × (load xs i ≡ ok x) × (store xs i (g x) ≡ ok (change_at i g xs))
change_cell [] i g h = absurd (omega arith)
change_cell (x ∷ xs) zero g h = (x, refl, refl)
change_cell (x ∷ xs) (suc i) g h =
    let (y, reads, writes) = change_cell xs i g (omega arith) in
    (y, reads, ap (λ r. r >>= λ ys. ok (x ∷ ys)) writes)

map-change_at :
    {A B : Type 0} (f : A → B) (g : A → A) (k : B → B) (i : ℕ) (xs : List A)
    → ((x : A) → f (g x) ≡ k (f x))
    → map f (change_at i g xs) ≡ change_at i k (map f xs)
map-change_at f g k i [] h = refl
map-change_at f g k zero (x ∷ xs) h = rw (h x) refl
map-change_at f g k (suc i) (x ∷ xs) h = rw (map-change_at f g k i xs h) refl

stops : (ctrl : ℕ) → bit (without_en ctrl) 0 ≡ 0
stops ctrl = bit-and ctrl 4294967294 0 ∙ unfold bit in omega arith

runs : (ctrl : ℕ) → bit (bit_or (without_en ctrl) ctrl_en) 0 ≡ 1
runs ctrl = bit-or (without_en ctrl) 1 0 ∙ rw (stops ctrl) (unfold bit in omega arith)

change_at-same : {A : Type 0} (i : ℕ) (xs : List A) → xs ≡ change_at i (λ x. x) xs
change_at-same i [] = refl
change_at-same zero (x ∷ xs) = refl
change_at-same (suc i) (x ∷ xs) = ap (λ l. x ∷ l) (change_at-same i xs)

length-change_at :
    {A : Type 0} (i : ℕ) (g : A → A) (xs : List A) → length (change_at i g xs) ≡ length xs
length-change_at i g [] = refl
length-change_at zero g (x ∷ xs) = refl
length-change_at (suc i) g (x ∷ xs) = ap suc (length-change_at i g xs)

-- The four outputs, after one of them is driven by `k` through its registers.
driven :
    (d : Pwm) (channel : ℕ) (g : LoongsonPwm → LoongsonPwm) (k : Line → Line)
    → length d.priv ≡ 4
    → ((x : LoongsonPwm) → line_of (g x) ≡ k (line_of x))
    → (map line_of (change_at (channel % 4) g d.priv)
        ≡ change_at (channel % 4) k (map line_of d.priv))
      × (length (change_at (channel % 4) g d.priv) ≡ 4)
driven d channel g k four h = (
  map-change_at line_of g k (channel % 4) d.priv h,
  length-change_at (channel % 4) g d.priv ∙ four,
)

-- The control operation on four timers drives the output of `channel % 4` as the command says,
-- leaves the other three alone and answers with the command's code, for every command.
pub loongson_pwm_ioctl-drive :
    (cmd : Cmd) (cfg : Configuration) (d : Pwm)
    → length d.priv ≡ 4
    → (d' : Pwm) × (loongson_pwm_ioctl cmd cfg d ≡ ok (code_of_cmd cmd, d'))
      × (map line_of d'.priv ≡ change_at (cfg.channel % 4) (drive cmd cfg) (map line_of d.priv))
      × (length d'.priv ≡ 4)
unfolding loongson_pwm_ioctl loongson_pwm_enable loongson_pwm_disable loongson_pwm_set line_of
loongson_pwm_ioctl-drive enable cfg d four =
    let g = λ (c : LoongsonPwm). record c { ctrl = ctrl_en } in
    let (x, reads, writes) = change_cell d.priv (cfg.channel % 4) g (omega arith) in
    let (lines, size) = driven d cfg.channel g (drive enable cfg) four (λ c. unfold bit in refl) in
    (
      record {
        config0 = bit_or d.config0 (2 ^ (12 + cfg.channel % 4));
        priv = change_at (cfg.channel % 4) g d.priv;
      },
      rw (reads, writes) refl,
      lines,
      size,
    )
loongson_pwm_ioctl-drive disable cfg d four =
    let g = λ (c : LoongsonPwm). record c { ctrl = without_en c.ctrl } in
    let (x, reads, writes) = change_cell d.priv (cfg.channel % 4) g (omega arith) in
    let (lines, size) =
      driven d cfg.channel g (drive disable cfg) four (λ c. rw (stops c.ctrl) refl) in
    (record d { priv = change_at (cfg.channel % 4) g d.priv }, rw (reads, writes) refl, lines, size)
loongson_pwm_ioctl-drive set cfg d four =
    let g = λ (c : LoongsonPwm). record c {
      full_buffer = cfg.period;
      low_buffer = cfg.pulse;
      ctrl = bit_or (without_en c.ctrl) ctrl_en;
    } in
    let (x, reads, writes) = change_cell d.priv (cfg.channel % 4) g (omega arith) in
    let (lines, size) = driven d cfg.channel g (drive set cfg) four (λ c. rw (runs c.ctrl) refl) in
    (record d { priv = change_at (cfg.channel % 4) g d.priv }, rw (reads, writes) refl, lines, size)
loongson_pwm_ioctl-drive get cfg d four =
    (d, refl, change_at-same (cfg.channel % 4) (map line_of d.priv), four)
loongson_pwm_ioctl-drive other_cmd cfg d four =
    (d, refl, change_at-same (cfg.channel % 4) (map line_of d.priv), four)
