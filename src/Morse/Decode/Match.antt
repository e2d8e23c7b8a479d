-- ===== src/Morse/Decode/Match.antt =====
-- The comparisons of `inverse_translate` (ls2kdev_record/applications/morse/morse_decode.c): the
-- characters that are stored for the symbols `c[0]`, `c[1]`, … by their number.
use losangeles_lakers.Base.{ℕ, Bool, true, false, ◌&&◌, List, [], ◌∷◌, ◌++◌, ◌==◌, if◌then◌else◌}
use losangeles_lakers.Morse.Code.{dian, hua, ci_kong}

-- `c[0] == p0 && c[1] == p1 && …`
abbrev pub same : List ℕ → List ℕ → Bool
same [] [] = true
same [] (q ∷ p) = false
same (x ∷ c) [] = false
same (x ∷ c) (q ∷ p) = x == q && same c p

abbrev pub when : Bool → ℕ → List ℕ
when true x = x ∷ []
when false x = []

abbrev pub tilde : List ℕ
tilde = b'~' ∷ []

unfoldable pub match_1 : List ℕ → List ℕ
match_1 c =
    if same c (ci_kong ∷ [])
    then 0x20 ∷ []
    else if same c (dian ∷ [])
    then 0x45 ∷ []
    else if same c (hua ∷ [])
    then 0x54 ∷ []
    else tilde

unfoldable pub match_2 : List ℕ → List ℕ
match_2 c =
    if same c (dian ∷ hua ∷ [])
    then 0x41 ∷ []
    else if same c (dian ∷ dian ∷ [])
    then 0x49 ∷ []
    else if same c (hua ∷ hua ∷ [])
    then 0x4d ∷ []
    else if same c (hua ∷ dian ∷ [])
    then 0x4e ∷ []
    else tilde

unfoldable pub match_3 : List ℕ → List ℕ
match_3 c =
    if same c (hua ∷ dian ∷ dian ∷ [])
    then 0x44 ∷ []
    else if same c (hua ∷ hua ∷ dian ∷ [])
    then 0x47 ∷ []
    else if same c (hua ∷ dian ∷ hua ∷ [])
    then 0x4b ∷ []
    else if same c (hua ∷ hua ∷ hua ∷ [])
    then 0x4f ∷ []
    else if same c (dian ∷ hua ∷ dian ∷ [])
    then 0x52 ∷ []
    else if same c (dian ∷ dian ∷ dian ∷ [])
    then 0x53 ∷ []
    else if same c (dian ∷ dian ∷ hua ∷ [])
    then 0x55 ∷ []
    else if same c (dian ∷ hua ∷ hua ∷ [])
    then 0x57 ∷ []
    else tilde

unfoldable pub match_4 : List ℕ → List ℕ
match_4 c =
    if same c (hua ∷ dian ∷ dian ∷ dian ∷ [])
    then 0x42 ∷ []
    else if same c (hua ∷ dian ∷ hua ∷ dian ∷ [])
    then 0x43 ∷ []
    else if same c (dian ∷ dian ∷ hua ∷ dian ∷ [])
    then 0x46 ∷ []
    else if same c (dian ∷ dian ∷ dian ∷ dian ∷ [])
    then 0x48 ∷ []
    else if same c (dian ∷ hua ∷ hua ∷ hua ∷ [])
    then 0x4a ∷ []
    else if same c (dian ∷ hua ∷ dian ∷ dian ∷ [])
    then 0x4c ∷ []
    else if same c (dian ∷ hua ∷ hua ∷ dian ∷ [])
    then 0x50 ∷ []
    else if same c (hua ∷ hua ∷ dian ∷ hua ∷ [])
    then 0x51 ∷ []
    else if same c (dian ∷ dian ∷ dian ∷ hua ∷ [])
    then 0x56 ∷ []
    else if same c (hua ∷ dian ∷ dian ∷ hua ∷ [])
    then 0x58 ∷ []
    else if same c (hua ∷ dian ∷ hua ∷ hua ∷ [])
    then 0x59 ∷ []
    else if same c (hua ∷ hua ∷ dian ∷ dian ∷ [])
    then 0x5a ∷ []
    else if same c (dian ∷ dian ∷ dian ∷ dian ∷ [])
    then 0x26 ∷ []
    else tilde

unfoldable pub match_5 : List ℕ → List ℕ
match_5 c =
    if same c (hua ∷ hua ∷ hua ∷ hua ∷ hua ∷ [])
    then 0x30 ∷ []
    else if same c (dian ∷ hua ∷ hua ∷ hua ∷ hua ∷ [])
    then 0x31 ∷ []
    else if same c (dian ∷ dian ∷ hua ∷ hua ∷ hua ∷ [])
    then 0x32 ∷ []
    else if same c (dian ∷ dian ∷ dian ∷ hua ∷ hua ∷ [])
    then 0x33 ∷ []
    else if same c (dian ∷ dian ∷ dian ∷ dian ∷ hua ∷ [])
    then 0x34 ∷ []
    else if same c (dian ∷ dian ∷ dian ∷ dian ∷ dian ∷ [])
    then 0x35 ∷ []
    else if same c (hua ∷ dian ∷ dian ∷ dian ∷ dian ∷ [])
    then 0x36 ∷ []
    else if same c (hua ∷ hua ∷ dian ∷ dian ∷ dian ∷ [])
    then 0x37 ∷ []
    else if same c (hua ∷ hua ∷ hua ∷ dian ∷ dian ∷ [])
    then 0x38 ∷ []
    else if same c (hua ∷ hua ∷ hua ∷ hua ∷ dian ∷ [])
    then 0x39 ∷ []
    else if same c (hua ∷ dian ∷ dian ∷ dian ∷ hua ∷ [])
    then 0x3d ∷ []
    else if same c (hua ∷ dian ∷ dian ∷ hua ∷ dian ∷ [])
    then 0x2f ∷ []
    else if same c (hua ∷ dian ∷ hua ∷ hua ∷ dian ∷ [])
    then 0x28 ∷ []
    else tilde

unfoldable pub match_7 : List ℕ → List ℕ
match_7 c = if same c (dian ∷ dian ∷ dian ∷ hua ∷ dian ∷ dian ∷ hua ∷ []) then 0x24 ∷ [] else tilde

-- Each test stands for itself here: only the last one has the `else`.
unfoldable pub match_6 : List ℕ → List ℕ
match_6 c =
    when (same c (dian ∷ hua ∷ dian ∷ hua ∷ dian ∷ hua ∷ [])) 0x2e
    ++ (when (same c (hua ∷ hua ∷ hua ∷ dian ∷ dian ∷ dian ∷ [])) 0x3a
        ++ (when (same c (hua ∷ hua ∷ dian ∷ dian ∷ hua ∷ hua ∷ [])) 0x2c
            ++ (when (same c (hua ∷ dian ∷ hua ∷ dian ∷ hua ∷ dian ∷ [])) 0x3b
                ++ (when (same c (dian ∷ dian ∷ hua ∷ hua ∷ dian ∷ dian ∷ [])) 0x3f
                    ++ (when (same c (dian ∷ hua ∷ hua ∷ hua ∷ hua ∷ dian ∷ [])) 0x27
                        ++ (when (same c (hua ∷ dian ∷ hua ∷ dian ∷ hua ∷ hua ∷ [])) 0x21
                            ++ (when (same c (hua ∷ dian ∷ dian ∷ dian ∷ dian ∷ hua ∷ [])) 0x2d
                                ++ (when (same c (dian ∷ dian ∷ hua ∷ hua ∷ dian ∷ hua ∷ [])) 0x5f
                                    ++ (when (same c (dian ∷ hua ∷ dian ∷ dian ∷ hua ∷ dian ∷ []))
                                          0x22
                                        ++ (when (same c (hua ∷ dian ∷ hua ∷ hua ∷ dian ∷ hua ∷ []))
                                              0x29
                                            ++ ((if same c
                                                  (dian ∷ hua ∷ hua ∷ dian ∷ hua ∷ dian ∷ [])
                                                then 0x40 ∷ []
                                                else tilde))))))))))))

-- The characters stored for a whole group; none for an empty one.
unfoldable pub decode : List ℕ → List ℕ
unfolding match_1 match_2 match_3 match_4 match_5 match_6 match_7
decode [] = []
decode (a ∷ []) = match_1 (a ∷ [])
decode (a ∷ b ∷ []) = match_2 (a ∷ b ∷ [])
decode (a ∷ b ∷ c ∷ []) = match_3 (a ∷ b ∷ c ∷ [])
decode (a ∷ b ∷ c ∷ d ∷ []) = match_4 (a ∷ b ∷ c ∷ d ∷ [])
decode (a ∷ b ∷ c ∷ d ∷ e ∷ []) = match_5 (a ∷ b ∷ c ∷ d ∷ e ∷ [])
decode (a ∷ b ∷ c ∷ d ∷ e ∷ f ∷ []) = match_6 (a ∷ b ∷ c ∷ d ∷ e ∷ f ∷ [])
decode (a ∷ b ∷ c ∷ d ∷ e ∷ f ∷ g ∷ []) = match_7 (a ∷ b ∷ c ∷ d ∷ e ∷ f ∷ g ∷ [])
decode (a ∷ b ∷ c ∷ d ∷ e ∷ f ∷ g ∷ h ∷ more) = tilde
