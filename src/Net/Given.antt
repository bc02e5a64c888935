-- ===== src/Net/Given.antt =====
-- Which frame `flush_pending_rx` of src/devices/virtio_net.rs gives to the guest.
use kitsune.Base.{
  ℕ, ◌≤◌, ◌<◌, ◌≡◌, refl, ap, sym, ◌∙◌, subst, Bool, true, false, some, List, [], ◌∷◌, ◌++◌,
  append_assoc, ltb, length, replicate, if◌then◌else◌, arith, ◌%◌, u32_mod,
}
use kitsune.Net.State.{NetState, RxChain, given, add_answer, add_used, queue_rx}
use kitsune.Net.Rx.{Flush, after_add, give, offer, flush_chains, flush_held, flush_pending_rx}

-- A chain of so much room.
abbrev pub chain_of : ℕ → ℕ → RxChain
chain_of head room = record { head_index = head; available_bytes = some room; writes = true }

abbrev pub chains_of : List (ℕ × ℕ) → List RxChain
chains_of [] = []
chains_of ((head, room) ∷ rest) = chain_of head room ∷ chains_of rest

-- All the rooms are less than `len`.
abbrev pub AllSmall : ℕ → List (ℕ × ℕ) → Type 0
AllSmall len [] = Unit
AllSmall len ((head, room) ∷ rest) = (room < len) × AllSmall len rest

-- What is returned of the chains that are too small.
abbrev pub empties : List (ℕ × ℕ) → List (ℕ × ℕ × ℕ)
empties [] = []
empties ((head, room) ∷ rest) = (queue_rx, head, 0) ∷ empties rest

-- What `add_used` does when it succeeds.
abbrev put : List Bool → ℕ → ℕ → NetState → NetState
put more head len s = record s { adds = more; used = s.used ++ (queue_rx, head, len) ∷ [] }

add_used-put :
    (head len : ℕ) (more adds : List Bool) (s : NetState)
    → adds ≡ true ∷ more
    → add_answer adds queue_rx head len s ≡ (true, put more head len s)
add_used-put head len more [] s e = cc
add_used-put head len more (true ∷ rest) s e = ap (λ l. (true, put l head len s)) (tail_eq e)
  where
    tail_eq : true ∷ rest ≡ true ∷ more → rest ≡ more
    tail_eq e = ground arith
add_used-put head len more (false ∷ rest) s e = cc

offer-small :
    (bytes : List ℕ) (head room : ℕ) (more : List Bool) (next : NetState → Flush) (s : NetState)
    → room < length bytes
    → s.adds ≡ true ∷ more
    → offer bytes (chain_of head room) room next s ≡ next (put more head 0 s)
unfolding offer add_used
offer-small bytes head room more next s small e =
    ap
      (λ b.
        if b
        then after_add next (add_used queue_rx head 0 s)
        else after_add (give bytes) (add_used queue_rx head (length bytes % u32_mod) s))
      less
    ∙ ap (after_add next) (add_used-put head 0 more s.adds s e)
  where
    less : ltb room (length bytes) ≡ true
    less = ground arith

offer-fits :
    (bytes : List ℕ) (head room : ℕ) (more : List Bool) (next : NetState → Flush) (s : NetState)
    → length bytes ≤ room
    → s.adds ≡ true ∷ more
    → offer bytes (chain_of head room) room next s
      ≡ give bytes (put more head (length bytes % u32_mod) s)
unfolding offer add_used
offer-fits bytes head room more next s fits e =
    ap
      (λ b.
        if b
        then after_add next (add_used queue_rx head 0 s)
        else after_add (give bytes) (add_used queue_rx head (length bytes % u32_mod) s))
      less
    ∙ ap (after_add (give bytes)) (add_used-put head (length bytes % u32_mod) more s.adds s e)
  where
    less : ltb room (length bytes) ≡ false
    less = ground arith

module _ (bytes : List ℕ) (head room : ℕ) (later : List RxChain) (fits : length bytes ≤ room) where
  -- The frame was given, and the chains returned, those too small with nothing in them.
  record Given (small : List (ℕ × ℕ)) (s : NetState) (r : Flush) : Type 0 where
    pub flagged : r.0 ≡ some true
    pub fate : r.1.fates ≡ s.fates ++ given bytes ∷ []
    pub returned :
        r.1.used ≡ s.used ++ (empties small ++ (queue_rx, head, length bytes % u32_mod) ∷ [])

  flush_chains-Given :
      (small : List (ℕ × ℕ)) (saw : Bool) (s : NetState) (more : List Bool)
      → AllSmall (length bytes) small
      → s.adds ≡ replicate (length small) true ++ true ∷ more
      → Given small s (flush_chains bytes (chains_of small ++ chain_of head room ∷ later) saw s)
  unfolding flush_chains
  flush_chains-Given [] saw s more h e =
      subst (Given [] s)
        (sym (
          offer-fits bytes head room more (flush_chains bytes later true) (record s { rx = later })
            fits e))
        (record { flagged = refl; fate = refl; returned = refl })
  flush_chains-Given ((j, r) ∷ small) saw s more h e =
      let cs = chains_of small ++ chain_of head room ∷ later in
      let next : NetState = record s { rx = cs } in
      let after : NetState = put (replicate (length small) true ++ true ∷ more) j 0 next in
      let g = flush_chains-Given small true after more h.1 refl in
      subst (Given ((j, r) ∷ small) s)
        (sym (
          offer-small bytes j r (replicate (length small) true ++ true ∷ more)
            (flush_chains bytes cs true) next h.0 e))
        (record {
          flagged = g.flagged;
          fate = g.fate;
          returned =
              g.returned
              ∙ append_assoc s.used ((queue_rx, j, 0) ∷ [])
                  (empties small ++ (queue_rx, head, length bytes % u32_mod) ∷ []);
        })

-- A held frame goes to the first chain with room for it, and the chains before that, which are too
-- small, are returned empty, if all of them are returned without an error: no frame is dropped that
-- there is a chain for.
pub flush_pending_rx-given :
    (bytes : List ℕ) (small : List (ℕ × ℕ)) (head room : ℕ) (later : List RxChain)
    (more : List Bool) (s : NetState)
    → s.pending_rx ≡ some bytes
    → s.rx ≡ chains_of small ++ chain_of head room ∷ later
    → AllSmall (length bytes) small
    → length bytes ≤ room
    → s.adds ≡ replicate (length small) true ++ true ∷ more
    → ((flush_pending_rx s).1.fates ≡ s.fates ++ given bytes ∷ [])
      × ((flush_pending_rx s).1.used
          ≡ s.used ++ (empties small ++ (queue_rx, head, length bytes % u32_mod) ∷ []))
unfolding flush_pending_rx
flush_pending_rx-given bytes small head room later more s held chains less fits e =
    let g =
      subst (λ cs. Given bytes head room later fits small s (flush_chains bytes cs false s))
        (sym chains) (flush_chains-Given bytes head room later fits small false s more less e) in
    subst
      (λ o.
        ((flush_held o s).1.fates ≡ s.fates ++ given bytes ∷ [])
        × ((flush_held o s).1.used
            ≡ s.used ++ (empties small ++ (queue_rx, head, length bytes % u32_mod) ∷ [])))
      (sym held) (g.fate, g.returned)
