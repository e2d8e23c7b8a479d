-- ===== src/Morse/Encode/Cases.antt =====
-- The cases of the `switch` in `translate` (ls2kdev_play/applications/morse_encode.c): the label,
-- the dots and dashes that are printed, and the table that is copied.
use losangeles_lakers.Base.{ℕ, List, [], ◌∷◌, ◌++◌}
use losangeles_lakers.Base.Text.{codes}
use losangeles_lakers.Morse.Code.{
  morse_kong, morse_a, morse_b, morse_c, morse_d, morse_e, morse_f, morse_g, morse_h, morse_i,
  morse_j, morse_k, morse_l, morse_m, morse_n, morse_o, morse_p, morse_q, morse_r, morse_s, morse_t,
  morse_u, morse_v, morse_w, morse_x, morse_y, morse_z, morse_0, morse_1, morse_2, morse_3, morse_4,
  morse_5, morse_6, morse_7, morse_8, morse_9, morse_dian, morse_mao, morse_dou, morse_fen,
  morse_wen, morse_deng, morse_danyin, morse_xie, morse_jing, morse_hua, morse_xiahua,
  morse_shuangyin, morse_zuokuo, morse_youkuo, morse_meiyuan, morse_and, morse_at,
}

pub record Case : Type 0 where
  pub label : ℕ
  pub printed : List ℕ
  pub table : List ℕ

abbrev pub on : ℕ → List ℕ → List ℕ → Case
on c p t = record { label = c; printed = p; table = t }

-- space and A to L
abbrev pub cases_space_l : List Case
cases_space_l =
    on 0x20 (codes "  ") morse_kong
    ∷ on 0x41 (codes ".- ") morse_a
    ∷ on 0x42 (codes "-... ") morse_b
    ∷ on 0x43 (codes "-.-. ") morse_c
    ∷ on 0x44 (codes "-.. ") morse_d
    ∷ on 0x45 (codes ". ") morse_e
    ∷ on 0x46 (codes "..-. ") morse_f
    ∷ on 0x47 (codes "--. ") morse_g
    ∷ on 0x48 (codes ".... ") morse_h
    ∷ on 0x49 (codes ".. ") morse_i
    ∷ on 0x4a (codes ".--- ") morse_j
    ∷ on 0x4b (codes "-.- ") morse_k
    ∷ on 0x4c (codes ".-.. ") morse_l
    ∷ []

-- M to Z
abbrev pub cases_m_z : List Case
cases_m_z =
    on 0x4d (codes "-- ") morse_m
    ∷ on 0x4e (codes "-. ") morse_n
    ∷ on 0x4f (codes "--- ") morse_o
    ∷ on 0x50 (codes ".--. ") morse_p
    ∷ on 0x51 (codes "--.- ") morse_q
    ∷ on 0x52 (codes ".-. ") morse_r
    ∷ on 0x53 (codes "... ") morse_s
    ∷ on 0x54 (codes "- ") morse_t
    ∷ on 0x55 (codes "..- ") morse_u
    ∷ on 0x56 (codes "...- ") morse_v
    ∷ on 0x57 (codes ".-- ") morse_w
    ∷ on 0x58 (codes "-..- ") morse_x
    ∷ on 0x59 (codes "-.-- ") morse_y
    ∷ on 0x5a (codes "--.. ") morse_z
    ∷ []

-- the digits
abbrev pub cases_digits : List Case
cases_digits =
    on 0x30 (codes "----- ") morse_0
    ∷ on 0x31 (codes ".---- ") morse_1
    ∷ on 0x32 (codes "..--- ") morse_2
    ∷ on 0x33 (codes "...-- ") morse_3
    ∷ on 0x34 (codes "....- ") morse_4
    ∷ on 0x35 (codes "..... ") morse_5
    ∷ on 0x36 (codes "-.... ") morse_6
    ∷ on 0x37 (codes "--... ") morse_7
    ∷ on 0x38 (codes "---.. ") morse_8
    ∷ on 0x39 (codes "----. ") morse_9
    ∷ []

-- the marks from . to -
abbrev pub cases_stops : List Case
cases_stops =
    on 0x2e (codes ".-.-.- ") morse_dian
    ∷ on 0x3a (codes "---... ") morse_mao
    ∷ on 0x2c (codes "--..-- ") morse_dou
    ∷ on 0x3b (codes "-.-.-. ") morse_fen
    ∷ on 0x3f (codes "..--.. ") morse_wen
    ∷ on 0x3d (codes "-...- ") morse_deng
    ∷ on 0x27 (codes ".----. ") morse_danyin
    ∷ on 0x2f (codes "-..-. ") morse_xie
    ∷ on 0x21 (codes "-.-.-- ") morse_jing
    ∷ on 0x2d (codes "-....- ") morse_hua
    ∷ []

-- the marks from _ to @
abbrev pub cases_marks : List Case
cases_marks =
    on 0x5f (codes "..--.- ") morse_xiahua
    ∷ on 0x22 (codes ".-..-. ") morse_shuangyin
    ∷ on 0x28 (codes "-.--. ") morse_zuokuo
    ∷ on 0x29 (codes "-.--.- ") morse_youkuo
    ∷ on 0x24 (codes "...-..- ") morse_meiyuan
    ∷ on 0x26 (codes "...- ") morse_and
    ∷ on 0x40 (codes ".--.-. ") morse_at
    ∷ []

abbrev pub switch : List Case
switch = cases_space_l ++ (cases_m_z ++ (cases_digits ++ (cases_stops ++ (cases_marks))))
