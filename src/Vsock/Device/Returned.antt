-- ===== src/Vsock/Device/Returned.antt =====
-- The chains that `pull_tx` of src/devices/virtio_vsock.rs returns to the guest.
use kitsune.Base.{
  ℕ, if◌then◌else◌, ◌≡◌, refl, ap, sym, ◌∙◌, Bool, true, false, Option, none, some, List, [], ◌∷◌,
  ◌++◌, append-nil, append_assoc, arith,
}
use kitsune.Vsock.Device.{
  VsockState, TxChain, add_used, serve, after_add, pull_chains, pull_tx, queue_tx,
}

-- The queues and heads of the chains that were returned, and of those that are available.
abbrev pub returned : List (ℕ × ℕ × ℕ) → List (ℕ × ℕ)
returned [] = []
returned ((queue, head, len) ∷ used) = (queue, head) ∷ returned used

abbrev pub tx_heads : List TxChain → List (ℕ × ℕ)
tx_heads [] = []
tx_heads (c ∷ cs) = (queue_tx, c.head_index) ∷ tx_heads cs

returned-append :
    (used : List (ℕ × ℕ × ℕ)) (queue head len : ℕ)
    → returned (used ++ (queue, head, len) ∷ []) ≡ returned used ++ (queue, head) ∷ []
returned-append [] queue head len = refl
returned-append (u ∷ used) queue head len =
    ap (λ l. (u.0, u.1) ∷ l) (returned-append used queue head len)

used-add_used :
    (s : VsockState) (queue head len : ℕ) (adds : List Bool)
    → s.adds ≡ adds
    → (add_used s queue head len).0 ≡ true
    → (add_used s queue head len).1.used ≡ s.used ++ (queue, head, len) ∷ []
unfolding add_used
used-add_used s queue head len [] e ok = ground (arith)
used-add_used s queue head len (a ∷ rest) e ok = ground (arith)

-- A loop's round whose `add_used` succeeded, and the rest of the loop.
after_add-some :
    (next : VsockState → Option Bool × VsockState) (r : Bool × VsockState) (b : Bool)
    → (after_add next r).0 ≡ some b
    → (r.0 ≡ true) × ((next r.1).0 ≡ some b) × (after_add next r ≡ next r.1)
after_add-some next (true, s) b e = (refl, e, refl)
after_add-some next (false, s) b e = absurd (nothing e)
  where
    nothing : none ≡ some b → ⊥
    nothing h = cc

-- The chains `cs` were returned in order, behind those before.
abbrev Returns : List TxChain → VsockState → Option Bool × VsockState → Type 0
Returns cs s r = returned r.1.used ≡ returned s.used ++ tx_heads cs

one_chain :
    (o : Option (List ℕ)) (head : ℕ) (cs : List TxChain) (used b : Bool) (s : VsockState)
    → ((t : VsockState) → (pull_chains cs true t).0 ≡ some b → Returns cs t (pull_chains cs true t))
    → (pull_chains ((record { head_index = head; readable = o }) ∷ cs) used s).0 ≡ some b
    → Returns
        ((record { head_index = head; readable = o }) ∷ cs)
        s
        (pull_chains ((record { head_index = head; readable = o }) ∷ cs) used s)
unfolding pull_chains
one_chain none head cs used b s ih e = absurd (nothing e)
  where
    nothing : none ≡ some b → ⊥
    nothing h = cc
one_chain (some bytes) head cs used b s ih e =
    let len = (serve s.mux s.host bytes).0 in
    let served : VsockState = record s {
      mux = (serve s.mux s.host bytes).1;
      host = (serve s.mux s.host bytes).2;
      tx = cs;
    } in
    let r = add_used served queue_tx head len in
    let (ok, rest, same) = after_add-some (pull_chains cs true) r b e in
    let before : returned r.1.used ≡ returned s.used ++ (queue_tx, head) ∷ [] =
      ap returned (used-add_used served queue_tx head len s.adds refl ok)
      ∙ returned-append s.used queue_tx head len in
    ap (λ t. returned t.1.used) same
    ∙ (ih r.1 rest
        ∙ (ap (λ l. l ++ tx_heads cs) before
            ∙ append_assoc (returned s.used) ((queue_tx, head) ∷ []) (tx_heads cs)))

pull_chains-Returns :
    (cs : List TxChain) (used b : Bool) (s : VsockState)
    → (pull_chains cs used s).0 ≡ some b
    → Returns cs s (pull_chains cs used s)
unfolding pull_chains
pull_chains-Returns [] used b s e = sym (append-nil (returned s.used))
pull_chains-Returns (c ∷ cs) used b s e =
    one_chain c.readable c.head_index cs used b s (pull_chains-Returns cs true b) e

-- If the transmit queue is ready and `pull_tx` ends without an error, it has returned each chain that
-- the guest had made available on that queue exactly once and in order, whatever bytes the chains hold.
pub pull_tx-returned :
    (s : VsockState) (b : Bool)
    → s.tx_ready ≡ true
    → (pull_tx s).0 ≡ some b
    → returned (pull_tx s).1.used ≡ returned s.used ++ tx_heads s.tx
unfolding pull_tx
pull_tx-returned s b ready e = from s.tx_ready ready e
  where
    from :
        (r : Bool)
        → r ≡ true
        → (if r then pull_chains s.tx false s else (some false, s)).0 ≡ some b
        → Returns s.tx s (if r then pull_chains s.tx false s else (some false, s))
    from true q e = pull_chains-Returns s.tx false b s e
    from false q e = cc
