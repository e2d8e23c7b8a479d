-- ===== src/Drivers/Ethernet/Receive/Filled.antt =====
-- The loop that gives the device its buffers, and what is received from then on.
use losangeles_lakers.Base.{
  ℕ, zero, suc, ◌+◌, ◌-◌, ◌%◌, ◌^◌, ◌<◌, ◌≤◌, ◌≡◌, ◌≢◌, refl, sym, ◌∙◌, false, ◌==◌, ==_false, inl,
  inr, ltb, ltb-false, ltb-true, subst, if◌then◌else◌, List, [], ◌∷◌, ◌++◌, append_assoc, ◌⊎◌,
  length, length-append, ok, load, put, load-put, load-put_other, length-put, arith,
}
use losangeles_lakers.Drivers.Ethernet.{Queue, following}
use losangeles_lakers.Drivers.Ethernet.Fifo.{wrap, following-wrap}
use losangeles_lakers.Drivers.Ethernet.Receive.{rx_desc_init_ring, receive_desc_size}
use losangeles_lakers.Drivers.Ethernet.Receive.Listens.{listening, rx_desc_of, set_rx_qptr-free}
use losangeles_lakers.Drivers.Ethernet.Receive.{give_buffers}
use losangeles_lakers.Drivers.Ethernet.Receive.Events.{load_lt}

-- Some of the descriptors have a buffer.
pub record Partly (map_single : ℕ → ℕ) (filled : List ℕ) (q : Queue) : Type 0 where
  pub cells : length q.desc ≡ receive_desc_size
  pub located : (q.addr == 0) ≡ false
  pub busy : q.busy ≡ 0
  pub busy_desc : q.busy_desc ≡ 0
  pub next : q.next ≡ wrap receive_desc_size 0 (length filled)
  pub next_desc : q.next_desc ≡ wrap receive_desc_size 0 (length filled)
  pub count : q.busy_count ≡ length filled
  pub loads :
      (k a : ℕ)
      → load filled k ≡ ok a
      → load q.desc k ≡ ok (rx_desc_of map_single (suc k == receive_desc_size) (listening a))
  pub rest :
      (k : ℕ)
      → length filled ≤ k
      → k < receive_desc_size
      → load q.desc k ≡ ok (rx_desc_init_ring (suc k == receive_desc_size))

module _ {A : Type 0} where
  load-append :
      (es : List A) (x : A) (k : ℕ) (e : A)
      → load (es ++ (x ∷ [])) k ≡ ok e
      → (load es k ≡ ok e) ⊎ ((k ≡ length es) × (x ≡ e))
  load-append [] x zero e is = inr (refl, cc)
  load-append [] x (suc k) e is = absurd cc
  load-append (y ∷ es) x zero e is = inl is
  load-append (y ∷ es) x (suc k) e is = elim (load-append es x k e is) [
    | inl at ↦ inl at
    | inr (end, same) ↦ inr (omega arith, same)
  ]

unfoldable pub AllSome : List ℕ → Type 0
AllSome skbs = (k a : ℕ) → load skbs k ≡ ok a → 0 < a

module _ (map_single : ℕ → ℕ) where
  filled_one : ℕ → Queue → Queue
  filled_one a q =
      let last = suc q.next_desc == receive_desc_size in
      record q {
        desc = put q.desc q.next_desc (rx_desc_of map_single last (listening a));
        next = following last q.next;
        next_desc = following last q.next_desc;
        busy_count = (q.busy_count + 1) % 2 ^ 32;
      }

  filled_one-Partly :
      (filled : List ℕ) (a : ℕ) (q : Queue)
      → Partly map_single filled q
      → length filled < receive_desc_size
      → Partly map_single (filled ++ (a ∷ [])) (filled_one a q)
  unfolding filled_one
  filled_one-Partly filled a q h room =
      let n = length filled in
      let place : wrap receive_desc_size 0 n ≡ n = ground arith in
      let here : q.next_desc ≡ n = h.next_desc ∙ place in
      let index : q.next ≡ n = h.next ∙ place in
      let d = rx_desc_of map_single (suc n == receive_desc_size) (listening a) in
      let more : length (filled ++ (a ∷ [])) ≡ suc n =
        omega (arith, length-append filled (a ∷ [])) in
      let inside : n < length q.desc = omega (arith, h.cells, room) in
      let on : following (suc n == receive_desc_size) n ≡ wrap receive_desc_size 0 (suc n) =
        following-wrap receive_desc_size n room ∙ ground arith in
      record {
        cells =
            length-put q.desc q.next_desc
              (rx_desc_of map_single (suc q.next_desc == receive_desc_size) (listening a))
            ∙ h.cells;
        located = h.located;
        busy = h.busy;
        busy_desc = h.busy_desc;
        next = rw (here, index, more) on;
        next_desc = rw (here, more) on;
        count = omega (arith, h.count, more);
        loads = rw here (λ k b is. elim (load-append filled a k b is) [
          | inl at ↦
              let apart : k ≢ n = λ e. absurd (omega (arith, load_lt filled k b at)) in
              load-put_other q.desc n d k apart ∙ h.loads k b at
          | inr (end, same) ↦ rw (end, sym same) (load-put q.desc n d inside)
        ]);
        rest =
            rw (here, more)
              (λ k low high.
                load-put_other q.desc n d k (λ e. absurd (omega arith))
                ∙ h.rest k (omega arith) high);
      }

  give_one :
      (filled : List ℕ) (a : ℕ) (skbs : List ℕ) (q : Queue)
      → Partly map_single filled q
      → length filled < receive_desc_size
      → 0 < a
      → give_buffers map_single (a ∷ skbs) q ≡ (
          if ltb (length filled) (receive_desc_size - 1)
          then give_buffers map_single skbs (filled_one a q)
          else ok ([], filled_one a q))
  unfolding give_buffers filled_one
  give_one filled a skbs q h room some_address =
      let n = length filled in
      let place : wrap receive_desc_size 0 n ≡ n = ground arith in
      let here : q.next_desc ≡ n = h.next_desc ∙ place in
      let index : q.next ≡ n = h.next ∙ place in
      let loads : load q.desc q.next_desc
          ≡ ok (rx_desc_init_ring (suc q.next_desc == receive_desc_size)) =
        h.rest q.next_desc (omega (arith, here)) (omega (arith, here, room)) in
      rw
        (
          ==_false a 0 (omega arith),
          set_rx_qptr-free map_single a q (suc q.next_desc == receive_desc_size) h.located loads
              (omega (arith, here, room, h.cells)),
          index,
        )
        refl

  pub give_buffers-Partly :
      (skbs filled : List ℕ) (q : Queue)
      → Partly map_single filled q
      → length filled + length skbs ≡ receive_desc_size
      → 0 < length skbs
      → AllSome skbs
      → (q' : Queue) × (give_buffers map_single skbs q ≡ ok ([], q'))
        × Partly map_single (filled ++ skbs) q'
  unfolding AllSome
  give_buffers-Partly [] filled q h all some_left good = absurd (omega arith)
  give_buffers-Partly (a ∷ []) filled q h all some_left good =
      let room : length filled < receive_desc_size = omega arith in
      rw
        (
          give_one filled a [] q h room (good 0 a refl),
          ltb-false (length filled) (receive_desc_size - 1) (omega arith),
        )
        (filled_one a q, refl, filled_one-Partly filled a q h room)
  give_buffers-Partly (a ∷ b ∷ skbs) filled q h all some_left good =
      let room : length filled < receive_desc_size = omega arith in
      let kept = filled_one-Partly filled a q h room in
      let (q', gives, held) =
        give_buffers-Partly (b ∷ skbs) (filled ++ (a ∷ [])) (filled_one a q) kept
          (omega (arith, length-append filled (a ∷ []))) (omega arith)
          (λ k e is. good (suc k) e is) in
      let regroup = append_assoc filled (a ∷ []) (b ∷ skbs) in
      rw
        (
          give_one filled a (b ∷ skbs) q h room (good 0 a refl),
          ltb-true (length filled) (receive_desc_size - 1) (omega arith),
        )
        (q', gives, subst (λ xs. Partly map_single xs q') regroup held)
