-- ===== src/Drivers/Vs1003/Ends.antt =====
-- The driver's loops end where the codec is ready.
use losangeles_lakers.Base.{
  ℕ, zero, suc, ◌+◌, ◌-◌, ◌*◌, ◌%◌, ◌^◌, ◌≤◌, min, bit_and, ◌≡◌, refl, true, false, List, [], ◌∷◌,
  ◌++◌, All, drop, length, length-drop, ok, arith, ◌==◌,
}
use losangeles_lakers.Base.Io.{behind, ◌>>=◌, ◌>>◌}
use losangeles_lakers.Drivers.Spi.{
  SpiEvent, txfifo, rt_pin_read, Bus, Io, with_replies, wait_echo, get_rxfifo,
  spi_write_for_response,
}
use losangeles_lakers.Drivers.Vs1003.{
  x_dreq, await_loop, await_data_request, send_chunk, send_loop, vs1003_chunk_size,
}

-- A value that is a status without the digit that the driver waits for, and a level that is high.
abbrev pub IsReady : ℕ → Type 0
IsReady r = ((bit_and r 1 == 0) ≡ true) × ((r == 0) ≡ false)

-- The action ends with a `Q` within `n` ready replies.
pub record Ends {A : Type 0} (m : Io A) (n : ℕ) (Q : A → Type 0) : Type 0 where
  pub run :
      (w : Bus)
      → All IsReady w.replies
      → n ≤ length w.replies
      → (a : A) × (es : List SpiEvent) × (w' : Bus) × (m w ≡ ok (a, es, w'))
        × Q a
        × All IsReady w'.replies
        × (length w.replies ≤ length w'.replies + n)

pub Ends-then :
    {A B : Type 0} {R : A → Type 0} {Q : B → Type 0} {n k : ℕ} (m : Io A) (f : A → Io B)
    → Ends m n R
    → ((a : A) → R a → Ends (f a) k Q)
    → Ends (m >>= f) (n + k) Q
Ends-then {k = k} m f h g = record {
  run = λ w r e.
      let (a, es, w', e1, q, r', l) = h.run w r (omega arith) in
      let (b, fs, w'', e2, q', r'', l') = (g a q).run w' r' (omega arith) in
      (b, es ++ fs, w'', rw (e1, e2) refl, q', r'', omega arith);
}

-- An action that reads nothing.
pub Ends-at_once :
    {A : Type 0} {Q : A → Type 0} (m : Io A) (a : A) (es : Bus → List SpiEvent) (s : ℕ → ℕ)
    → Q a
    → ((w : Bus) → m w ≡ ok (a, es w, record w { soft_cs = s w.soft_cs }))
    → Ends m 0 Q
Ends-at_once m a es s q h = record {
  run = λ w r e. (a, es w, record w { soft_cs = s w.soft_cs }, h w, q, r, omega arith);
}

abbrev pub Any : {A : Type 0} → A → Type 0
Any a = Unit

pub await-Ends : Ends await_data_request 1 Any
unfolding await_data_request await_loop
await-Ends = record { run = λ w r e. go w w.replies refl r e }
  where
    go :
        (w : Bus) (rs : List ℕ)
        → w.replies ≡ rs
        → All IsReady rs
        → 1 ≤ length rs
        → (a : Unit {0}) × (es : List SpiEvent) × (w' : Bus) × (with_replies w (await_loop rs)
            ≡ ok (a, es, w'))
          × Unit {0}
          × All IsReady w'.replies
          × (length rs ≤ length w'.replies + 1)
    go w [] p r e = absurd (omega arith)
    go w (v ∷ rs) p r e = (
      tt,
      rt_pin_read x_dreq v ∷ [],
      record w { replies = rs },
      rw r.0.1 refl,
      tt,
      r.1,
      omega arith,
    )

pub byte-Ends : (b : ℕ) → Ends (spi_write_for_response b) 2 Any
unfolding spi_write_for_response wait_echo
byte-Ends b = record { run = λ w r e. go w w.replies r e }
  where
    go :
        (w : Bus) (rs : List ℕ)
        → All IsReady rs
        → 2 ≤ length rs
        → (a : ℕ) × (es : List SpiEvent) × (w' : Bus) × (behind
              (txfifo b ∷ [])
              (with_replies w ((wait_echo >> get_rxfifo) rs))
            ≡ ok (a, es, w'))
          × Unit {0}
          × All IsReady w'.replies
          × (length rs ≤ length w'.replies + 2)
    go w [] r e = absurd (omega arith)
    go w (v ∷ []) r e = absurd (omega arith)
    go w (v ∷ u ∷ rs) r e =
        (u % 2 ^ 8, txfifo b ∷ [], record w { replies = rs }, rw r.0.0 refl, tt, r.1.1, omega arith)

-- More replies than are read.
pub Ends-within :
    {A : Type 0} {Q : A → Type 0} {n k : ℕ} (m : Io A) → Ends m n Q → n ≤ k → Ends m k Q
Ends-within m h l = record {
  run = λ w r e.
      let (a, es, w', e', q, r', l') = h.run w r (omega arith) in
      (a, es, w', e', q, r', omega arith);
}

send_chunk-Ends :
    (n : ℕ) (data' : List ℕ)
    → n ≤ length data'
    → Ends (send_chunk n data') (n * 2) (λ rest. rest ≡ drop n data')
unfolding send_chunk
send_chunk-Ends zero data' h =
    Ends-within _ (Ends-at_once _ data' (λ w. []) (λ s. s) refl (λ w. refl)) (omega arith)
send_chunk-Ends (suc n) [] h = absurd (omega arith)
send_chunk-Ends (suc n) (b ∷ data') h =
    Ends-within _ (Ends-then _ _ (byte-Ends b) (λ a q. send_chunk-Ends n data' (omega arith)))
      (omega arith)

pub send_loop-Ends :
    (rounds len : ℕ) (data' : List ℕ)
    → len ≤ rounds
    → len ≤ length data'
    → Ends (send_loop rounds data' len) (len * 3) Any
unfolding send_loop
send_loop-Ends rounds zero data' h k =
    Ends-within _ (Ends-at_once _ tt (λ w. []) (λ s. s) tt (λ w. refl)) (omega arith)
send_loop-Ends zero (suc l) data' h k = absurd (omega arith)
send_loop-Ends (suc rounds) (suc l) data' h k =
    let chunk = min (suc l) vs1003_chunk_size in
    Ends-within _
      (Ends-then _ _ await-Ends (λ _ _.
        Ends-then _ _ (send_chunk-Ends chunk data' (omega arith)) (λ rest e.
          send_loop-Ends rounds (suc l - chunk) rest (omega arith)
            (rw e (omega (arith, length-drop chunk data'))))))
      (omega arith)
