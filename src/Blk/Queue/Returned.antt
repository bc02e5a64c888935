-- ===== src/Blk/Queue/Returned.antt =====
-- The chains that `process_queue` of src/devices/virtio_blk.rs returns to the guest.
use kitsune.Base.{
  ℕ, ◌≡◌, refl, ap, sym, ◌∙◌, Bool, true, false, not, ◌||◌, Option, none, some, List, [], ◌∷◌, ◌++◌,
  append-nil, append_assoc, arith, is_empty,
}
use kitsune.Blk.Request.{Chain, Handled, handle_request}
use kitsune.Blk.Queue.{
  Worker, add_used, after_add, after_request, process_chains, process_queue, unwrap_or_one,
}

-- The heads that were returned, and those of the chains.
abbrev pub returned : List (ℕ × ℕ) → List ℕ
returned [] = []
returned ((head, len) ∷ used) = head ∷ returned used

abbrev pub heads : List Chain → List ℕ
heads [] = []
heads (c ∷ cs) = c.head_index ∷ heads cs

returned-append :
    (used : List (ℕ × ℕ)) (head len : ℕ)
    → returned (used ++ (head, len) ∷ []) ≡ returned used ++ head ∷ []
returned-append [] head len = refl
returned-append (u ∷ used) head len = ap (λ l. u.0 ∷ l) (returned-append used head len)

add_used-used :
    (head len : ℕ) (w : Worker)
    → (add_used head len w).0 ≡ true
    → (add_used head len w).1.used ≡ w.used ++ (head, len) ∷ []
unfolding add_used
add_used-used head len w ok = ground arith

-- How a loop over `cs` has ended that ended well with `b`.
abbrev Returned : List Chain → Bool → Bool → Worker → Option Bool × Worker → Type 0
Returned cs used b w r =
    (returned r.1.used ≡ returned w.used ++ heads cs) × (b ≡ (used || not (is_empty cs)))

process_chains-Returned :
    (capacity : ℕ) (readonly : Bool) (cs : List Chain) (used b : Bool) (w : Worker)
    → (process_chains capacity readonly cs used w).0 ≡ some b
    → Returned cs used b w (process_chains capacity readonly cs used w)
unfolding process_chains
process_chains-Returned capacity readonly [] used b w e =
    (sym (append-nil (returned w.used)), ground arith)
process_chains-Returned capacity readonly (c ∷ cs) used b w e =
    by (add_used c.head_index len next) (add_used-used c.head_index len next)
      (process_chains-Returned capacity readonly cs true b) e
  where
    h : Handled
    h = handle_request capacity readonly c w.disk

    len : ℕ
    len = unwrap_or_one h.0

    next : Worker
    next = after_request cs h w

    by :
        (r : Bool × Worker)
        → (r.0 ≡ true → r.1.used ≡ w.used ++ (c.head_index, len) ∷ [])
        → ((t : Worker)
            → (process_chains capacity readonly cs true t).0 ≡ some b
            → Returned cs true b t (process_chains capacity readonly cs true t))
        → (after_add (process_chains capacity readonly cs true) r).0 ≡ some b
        → Returned (c ∷ cs) used b w (after_add (process_chains capacity readonly cs true) r)
    by (true, t) put ih ok = (
      (ih t ok).0
          ∙ (ap (λ l. returned l ++ heads cs) (put refl)
              ∙ (ap (λ l. l ++ heads cs) (returned-append w.used c.head_index len)
                  ∙ append_assoc (returned w.used) (c.head_index ∷ []) (heads cs))),
      (ih t ok).1 ∙ ground arith,
    )
    by (false, t) put ih ok = absurd (nothing ok)
      where
        nothing : none ≡ some b → ⊥
        nothing e = cc

-- If `process_queue` ends without an error, it has returned each chain that the guest had made
-- available exactly once and in order, and it signals the guest if there was one.
pub process_queue-returned :
    (capacity : ℕ) (readonly : Bool) (w : Worker) (b : Bool)
    → (process_queue capacity readonly w).0 ≡ some b
    → (returned (process_queue capacity readonly w).1.used ≡ returned w.used ++ heads w.chains)
      × (b ≡ not (is_empty w.chains))
unfolding process_queue
process_queue-returned capacity readonly w b e =
    process_chains-Returned capacity readonly w.chains false b w e
