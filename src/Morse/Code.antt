-- ===== src/Morse/Code.antt =====
-- ls2kdev_play/applications/morse_code.h: the sound codes and the code table of each character.
-- A table holds the cells that its initialiser gives and no terminating zero.
use losangeles_lakers.Base.{ℕ, List, [], ◌∷◌}

abbrev pub dian : ℕ
dian = 100

abbrev pub hua : ℕ
hua = 300

abbrev pub zifu_kong : ℕ
zifu_kong = 3000

abbrev pub ci_kong : ℕ
ci_kong = 7000

abbrev pub morse_kong : List ℕ
morse_kong = ci_kong ∷ zifu_kong ∷ []

abbrev pub morse_a : List ℕ
morse_a = dian ∷ hua ∷ zifu_kong ∷ []

abbrev pub morse_b : List ℕ
morse_b = hua ∷ dian ∷ dian ∷ dian ∷ zifu_kong ∷ []

abbrev pub morse_c : List ℕ
morse_c = hua ∷ dian ∷ hua ∷ dian ∷ zifu_kong ∷ []

abbrev pub morse_d : List ℕ
morse_d = hua ∷ dian ∷ dian ∷ zifu_kong ∷ []

abbrev pub morse_e : List ℕ
morse_e = dian ∷ zifu_kong ∷ []

abbrev pub morse_f : List ℕ
morse_f = dian ∷ dian ∷ hua ∷ dian ∷ zifu_kong ∷ []

abbrev pub morse_g : List ℕ
morse_g = hua ∷ hua ∷ dian ∷ zifu_kong ∷ []

abbrev pub morse_h : List ℕ
morse_h = dian ∷ dian ∷ dian ∷ dian ∷ zifu_kong ∷ []

abbrev pub morse_i : List ℕ
morse_i = dian ∷ dian ∷ zifu_kong ∷ []

abbrev pub morse_j : List ℕ
morse_j = dian ∷ hua ∷ hua ∷ hua ∷ zifu_kong ∷ []

abbrev pub morse_k : List ℕ
morse_k = hua ∷ dian ∷ hua ∷ zifu_kong ∷ []

abbrev pub morse_l : List ℕ
morse_l = dian ∷ hua ∷ dian ∷ dian ∷ zifu_kong ∷ []

abbrev pub morse_m : List ℕ
morse_m = hua ∷ hua ∷ zifu_kong ∷ []

abbrev pub morse_n : List ℕ
morse_n = hua ∷ dian ∷ zifu_kong ∷ []

abbrev pub morse_o : List ℕ
morse_o = hua ∷ hua ∷ hua ∷ zifu_kong ∷ []

abbrev pub morse_p : List ℕ
morse_p = dian ∷ hua ∷ hua ∷ dian ∷ zifu_kong ∷ []

abbrev pub morse_q : List ℕ
morse_q = hua ∷ hua ∷ dian ∷ hua ∷ zifu_kong ∷ []

abbrev pub morse_r : List ℕ
morse_r = dian ∷ hua ∷ dian ∷ zifu_kong ∷ []

abbrev pub morse_s : List ℕ
morse_s = dian ∷ dian ∷ dian ∷ zifu_kong ∷ []

abbrev pub morse_t : List ℕ
morse_t = hua ∷ zifu_kong ∷ []

abbrev pub morse_u : List ℕ
morse_u = dian ∷ dian ∷ hua ∷ zifu_kong ∷ []

abbrev pub morse_v : List ℕ
morse_v = dian ∷ dian ∷ dian ∷ hua ∷ zifu_kong ∷ []

abbrev pub morse_w : List ℕ
morse_w = dian ∷ hua ∷ hua ∷ zifu_kong ∷ []

abbrev pub morse_x : List ℕ
morse_x = hua ∷ dian ∷ dian ∷ hua ∷ zifu_kong ∷ []

abbrev pub morse_y : List ℕ
morse_y = hua ∷ dian ∷ hua ∷ hua ∷ zifu_kong ∷ []

abbrev pub morse_z : List ℕ
morse_z = hua ∷ hua ∷ dian ∷ dian ∷ zifu_kong ∷ []

abbrev pub morse_0 : List ℕ
morse_0 = hua ∷ hua ∷ hua ∷ hua ∷ hua ∷ zifu_kong ∷ []

abbrev pub morse_1 : List ℕ
morse_1 = dian ∷ hua ∷ hua ∷ hua ∷ hua ∷ zifu_kong ∷ []

abbrev pub morse_2 : List ℕ
morse_2 = dian ∷ dian ∷ hua ∷ hua ∷ hua ∷ zifu_kong ∷ []

abbrev pub morse_3 : List ℕ
morse_3 = dian ∷ dian ∷ dian ∷ hua ∷ hua ∷ zifu_kong ∷ []

abbrev pub morse_4 : List ℕ
morse_4 = dian ∷ dian ∷ dian ∷ dian ∷ hua ∷ zifu_kong ∷ []

abbrev pub morse_5 : List ℕ
morse_5 = dian ∷ dian ∷ dian ∷ dian ∷ dian ∷ zifu_kong ∷ []

abbrev pub morse_6 : List ℕ
morse_6 = hua ∷ dian ∷ dian ∷ dian ∷ dian ∷ zifu_kong ∷ []

abbrev pub morse_7 : List ℕ
morse_7 = hua ∷ hua ∷ dian ∷ dian ∷ dian ∷ zifu_kong ∷ []

abbrev pub morse_8 : List ℕ
morse_8 = hua ∷ hua ∷ hua ∷ dian ∷ dian ∷ zifu_kong ∷ []

abbrev pub morse_9 : List ℕ
morse_9 = hua ∷ hua ∷ hua ∷ hua ∷ dian ∷ zifu_kong ∷ []

abbrev pub morse_dian : List ℕ
morse_dian = dian ∷ hua ∷ dian ∷ hua ∷ dian ∷ hua ∷ zifu_kong ∷ []

abbrev pub morse_mao : List ℕ
morse_mao = hua ∷ hua ∷ hua ∷ dian ∷ dian ∷ dian ∷ zifu_kong ∷ []

abbrev pub morse_dou : List ℕ
morse_dou = hua ∷ hua ∷ dian ∷ dian ∷ hua ∷ hua ∷ zifu_kong ∷ []

abbrev pub morse_fen : List ℕ
morse_fen = hua ∷ dian ∷ hua ∷ dian ∷ hua ∷ dian ∷ zifu_kong ∷ []

abbrev pub morse_wen : List ℕ
morse_wen = dian ∷ dian ∷ hua ∷ hua ∷ dian ∷ dian ∷ zifu_kong ∷ []

abbrev pub morse_deng : List ℕ
morse_deng = hua ∷ dian ∷ dian ∷ dian ∷ hua ∷ zifu_kong ∷ []

abbrev pub morse_danyin : List ℕ
morse_danyin = dian ∷ hua ∷ hua ∷ hua ∷ hua ∷ dian ∷ zifu_kong ∷ []

abbrev pub morse_xie : List ℕ
morse_xie = hua ∷ dian ∷ dian ∷ hua ∷ dian ∷ zifu_kong ∷ []

abbrev pub morse_jing : List ℕ
morse_jing = hua ∷ dian ∷ hua ∷ dian ∷ hua ∷ hua ∷ zifu_kong ∷ []

abbrev pub morse_hua : List ℕ
morse_hua = hua ∷ dian ∷ dian ∷ dian ∷ dian ∷ hua ∷ zifu_kong ∷ []

abbrev pub morse_xiahua : List ℕ
morse_xiahua = dian ∷ dian ∷ hua ∷ hua ∷ dian ∷ hua ∷ zifu_kong ∷ []

abbrev pub morse_shuangyin : List ℕ
morse_shuangyin = dian ∷ hua ∷ dian ∷ dian ∷ hua ∷ dian ∷ zifu_kong ∷ []

abbrev pub morse_zuokuo : List ℕ
morse_zuokuo = hua ∷ dian ∷ hua ∷ hua ∷ dian ∷ zifu_kong ∷ []

abbrev pub morse_youkuo : List ℕ
morse_youkuo = hua ∷ dian ∷ hua ∷ hua ∷ dian ∷ hua ∷ zifu_kong ∷ []

abbrev pub morse_meiyuan : List ℕ
morse_meiyuan = dian ∷ dian ∷ dian ∷ hua ∷ dian ∷ dian ∷ hua ∷ zifu_kong ∷ []

abbrev pub morse_and : List ℕ
morse_and = dian ∷ dian ∷ dian ∷ dian ∷ zifu_kong ∷ []

abbrev pub morse_at : List ℕ
morse_at = dian ∷ hua ∷ hua ∷ dian ∷ hua ∷ dian ∷ zifu_kong ∷ []
