-- ===== src/Net/Received.antt =====
-- What becomes of the frames that `process_rx` of src/devices/virtio_net.rs reads from the TAP.
pub mod Flushing
use kitsune.Base.{
  ℕ, ◌≡◌, refl, ap, sym, ◌∙◌, Bool, true, false, not, ◌||◌, Option, none, some, is_some, List, [],
  ◌∷◌, ◌++◌, append-nil, append_assoc, ltb, length, if◌then◌else◌, arith, ◌%◌, u32_mod,
}
use kitsune.Net.State.{
  NetState, RxChain, TapRead, Fate, Stepped, frame, read_blocks, read_eintr, read_fails, given,
  dropped, fine, add_used, queue_rx, net_hdr_len,
}
use kitsune.Net.Rx.{
  Flush, after_add, give, offer, flush_chains, flush_held, flush_pending_rx, after_flush, rx_rounds,
  read_more, process_rx,
}
use kitsune.Net.Received.Flushing.{bytes_of, held_rx, arrived, Flushes, flush_pending_rx-Flushes}

-- The frames among the answers of the TAP that have at least a header.
abbrev pub valid_frames : List TapRead → List (List ℕ)
valid_frames [] = []
valid_frames (frame bytes ∷ answers) =
    if ltb (length bytes) net_hdr_len then valid_frames answers else bytes ∷ valid_frames answers
valid_frames (read_blocks ∷ answers) = valid_frames answers
valid_frames (read_eintr ∷ answers) = valid_frames answers
valid_frames (read_fails ∷ answers) = valid_frames answers

valid_frames-append :
    (l k : List TapRead) → valid_frames (l ++ k) ≡ valid_frames l ++ valid_frames k
valid_frames-append [] k = refl
valid_frames-append (frame bytes ∷ l) k =
    by (ltb (length bytes) net_hdr_len) (valid_frames-append l k)
  where
    by :
        (short : Bool)
        → valid_frames (l ++ k) ≡ valid_frames l ++ valid_frames k
        → (if short then valid_frames (l ++ k) else bytes ∷ valid_frames (l ++ k))
          ≡ (if short then valid_frames l else bytes ∷ valid_frames l) ++ valid_frames k
    by true ih = ih
    by false ih = ap (λ r. bytes ∷ r) ih
valid_frames-append (read_blocks ∷ l) k = valid_frames-append l k
valid_frames-append (read_eintr ∷ l) k = valid_frames-append l k
valid_frames-append (read_fails ∷ l) k = valid_frames-append l k

-- A step from `s` to `t` has read some of the TAP's answers, and taken up the frames among them that
-- have at least a header, behind those before.
pub record Received (s t : NetState) : Type 0 where
  pub consumed : List TapRead
  pub read_them : s.tap_reads ≡ consumed ++ t.tap_reads
  pub kept : arrived t ≡ arrived s ++ valid_frames consumed

nothing_read : (s t : NetState) → t.tap_reads ≡ s.tap_reads → arrived t ≡ arrived s → Received s t
nothing_read s t g a = record {
  consumed = [];
  read_them = sym g;
  kept = a ∙ sym (append-nil (arrived s));
}

then_Received : (s t u : NetState) → Received s t → Received t u → Received s u
then_Received s t u p q = record {
  consumed = p.consumed ++ q.consumed;
  read_them =
      p.read_them
      ∙ (ap (λ l. p.consumed ++ l) q.read_them
          ∙ sym (append_assoc p.consumed q.consumed u.tap_reads));
  kept =
      q.kept
      ∙ (ap (λ l. l ++ valid_frames q.consumed) p.kept
          ∙ (append_assoc (arrived s) (valid_frames p.consumed) (valid_frames q.consumed)
              ∙ ap (λ l. arrived s ++ l) (sym (valid_frames-append p.consumed q.consumed))));
}

-- An answer without a frame to take up.
skipped :
    (a : TapRead) (rest : List TapRead) (s : NetState)
    → s.tap_reads ≡ a ∷ rest
    → valid_frames (a ∷ []) ≡ []
    → Received s (record s { tap_reads = rest })
skipped a rest s e v = record {
  consumed = a ∷ [];
  read_them = e;
  kept = sym (ap (λ l. arrived s ++ l) v ∙ append-nil (arrived s));
}

-- A step of `process_rx` from `s` on.
abbrev Reads : NetState → Stepped → Type 0
Reads s r = Received s r.1

after_flush-Reads :
    (used : Bool) (next : Bool → NetState → Stepped) (s t : NetState)
    → Received s t
    → ((b : Bool) (u : NetState)
        → u.tap_reads ≡ t.tap_reads
        → u.pending_rx ≡ none
        → Reads u (next b u))
    → (r : Flush) → Flushes t r.1
    → Reads s (after_flush used next r)
after_flush-Reads used next s t p goes (none, u) (g, a) =
    then_Received s t u p (nothing_read t u g a)
after_flush-Reads used next s t p goes (some f, u) (g, a) = by u.pending_rx refl
  where
    so_far : Received s u
    so_far = then_Received s t u p (nothing_read t u g a)

    by :
        (o : Option (List ℕ))
        → u.pending_rx ≡ o
        → Reads s (if is_some o then (fine (used || f), u) else next (used || f) u)
    by (some bytes) e = so_far
    by none e = then_Received s u (next (used || f) u).1 so_far (goes (used || f) u g e)

rx_rounds-Reads :
    (answers : List TapRead) (used : Bool) (s : NetState)
    → s.tap_reads ≡ answers
    → s.pending_rx ≡ none
    → Reads s (rx_rounds answers used s)
unfolding rx_rounds
rx_rounds-Reads [] used s e free = nothing_read s s refl refl
rx_rounds-Reads (frame [] ∷ rest) used s e free = skipped (frame []) rest s e refl
rx_rounds-Reads (frame (b ∷ bs) ∷ rest) used s e free =
    by (ltb (length (b ∷ bs)) net_hdr_len) refl (λ f u. rx_rounds-Reads rest f u)
  where
    next : NetState
    next = record s { tap_reads = rest }

    took : NetState
    took = record next { pending_rx = some (b ∷ bs) }

    taken_up : ltb (length (b ∷ bs)) net_hdr_len ≡ false → Received s took
    taken_up long = record {
      consumed = frame (b ∷ bs) ∷ [];
      read_them = e;
      kept = sym (
          ap (λ p. (bytes_of s.fates ++ held_rx p) ++ valid_frames (frame (b ∷ bs) ∷ [])) free
          ∙ (ap (λ l. l ++ valid_frames (frame (b ∷ bs) ∷ [])) (append-nil (bytes_of s.fates))
              ∙ ap (λ c. bytes_of s.fates ++ (if c then [] else (b ∷ bs) ∷ [])) long));
    }

    by :
        (short : Bool)
        → ltb (length (b ∷ bs)) net_hdr_len ≡ short
        → ((f : Bool) (u : NetState)
            → u.tap_reads ≡ rest
            → u.pending_rx ≡ none
            → Reads u (rx_rounds rest f u))
        → Reads s (
            if short
            then rx_rounds rest used next
            else after_flush used (rx_rounds rest) (flush_pending_rx took))
    by true z goes =
        then_Received s next (rx_rounds rest used next).1
          (skipped (frame (b ∷ bs)) rest s e (ap (λ c. if c then [] else (b ∷ bs) ∷ []) z))
          (goes used next refl free)
    by false z goes =
        after_flush-Reads used (rx_rounds rest) s took (taken_up z) (λ f u. goes f u)
          (flush_pending_rx took) (flush_pending_rx-Flushes took)
rx_rounds-Reads (read_blocks ∷ rest) used s e free = skipped read_blocks rest s e refl
rx_rounds-Reads (read_eintr ∷ rest) used s e free =
    then_Received s (record s { tap_reads = rest })
      (rx_rounds rest used (record s { tap_reads = rest })).1 (skipped read_eintr rest s e refl)
      (rx_rounds-Reads rest used (record s { tap_reads = rest }) refl free)
rx_rounds-Reads (read_fails ∷ rest) used s e free = skipped read_fails rest s e refl

-- While the receive queue is ready, each frame of at least a header's length among the answers of the
-- TAP that `process_rx` uses up comes behind those before it and is given to the guest, dropped or
-- held, and none is lost, doubled or overtaken, however the call ends; shorter frames leave no trace.
pub process_rx-Received : (s : NetState) → s.rx_ready ≡ true → Received s (process_rx s).1
unfolding process_rx
process_rx-Received s ready = by s.rx_ready ready
  where
    waiting :
        (o : Option (List ℕ))
        → s.pending_rx ≡ o
        → Reads s (
            if is_some o
            then after_flush false read_more (flush_pending_rx s)
            else read_more false s)
    waiting (some bytes) e =
        after_flush-Reads false read_more s s (nothing_read s s refl refl)
          (λ f u same free. rx_rounds-Reads u.tap_reads f u refl free) (flush_pending_rx s)
          (flush_pending_rx-Flushes s)
    waiting none e = rx_rounds-Reads s.tap_reads false s refl e

    by :
        (r : Bool)
        → r ≡ true
        → Reads s (
            if not r
            then (fine false, record s { pending_rx = none })
            else if is_some s.pending_rx
            then after_flush false read_more (flush_pending_rx s)
            else read_more false s)
    by true e = waiting s.pending_rx refl
    by false e = cc
