-- ===== src/Console/Drain.antt =====
-- What `drain_stdin` of src/devices/serial.rs passes on.
use kitsune.Base.{
  ℕ, min, ◌≡◌, refl, ap, sym, ◌∙◌, inl, inr, ◌⊎◌, Bool, true, false, Option, none, some, List, [],
  ◌∷◌, ◌++◌, append-nil, ◌==◌, ltb, if◌then◌else◌, take, length-take, arith,
}
use kitsune.Console.Uart.{UartOps, UartLaws}
use kitsune.Console.Serial.{
  SerialConsole, StdinAnswer, Ended, fine, failed, spins, input, eof, would_block, eintr,
  read_fails, and_then, flush_pending_rx, reassert_rx_irq, raise_irq, after_input, on_input,
  drain_rounds, drain_stdin, uart_fifo_size,
}
use kitsune.Console.Order.{line, Ordered, no_bytes, then_Ordered, Flushed, flush_pending_rx-Flushed}

module _ {U : Type 0} (ops : UartOps U) (fifo : U → List ℕ) (laws : UartLaws ops fifo) where
  -- A call from `c` that has ended well has kept the order.
  abbrev pub InOrder : SerialConsole U → Ended × SerialConsole U → Type 0
  InOrder c r = r.0 ≡ fine → Ordered ops fifo laws c r.1

  abbrev Settled : SerialConsole U → Type 0
  Settled c = (c.pending_rx ≡ []) ⊎ (ops.fifo_capacity c.uart ≡ 0)

  abbrev Continues : (SerialConsole U → Ended × SerialConsole U) → Type 0
  Continues next = (d : SerialConsole U) → Settled d → InOrder d (next d)

  input_line :
      (c : SerialConsole U) (bytes : List ℕ) (u : U)
      → c.pending_rx ≡ []
      → fifo u ≡ fifo c.uart ++ bytes
      → line ops fifo laws (record c { uart = u; taken = c.taken ++ bytes })
        ≡ line ops fifo laws c ++ bytes
  input_line c bytes u none_ e =
      ap (λ l. fifo u ++ l) none_
      ∙ (append-nil (fifo u)
          ∙ (e
              ∙ ap (λ l. l ++ bytes)
                  (sym (append-nil (fifo c.uart)) ∙ ap (λ l. fifo c.uart ++ l) (sym none_))))

  input-InOrder :
      (next : SerialConsole U → Ended × SerialConsole U) (c : SerialConsole U) (bytes : List ℕ)
      → Continues next
      → c.pending_rx ≡ []
      → (r : Option ℕ × U) → ((n : ℕ) → r.0 ≡ some n → fifo r.1 ≡ fifo c.uart ++ bytes)
      → InOrder c (after_input ops next c bytes r)
  input-InOrder next c bytes goes none_ (none, u) law = λ x. cc
  input-InOrder next c bytes goes none_ (some n, u) law =
      let d : SerialConsole U = record c { uart = u; taken = c.taken ++ bytes } in
      let rest = goes d (inl none_) in
      let first : Ordered ops fifo laws c d = record {
        bytes = bytes;
        read_them = refl;
        lined_up = input_line c bytes u none_ (law n refl);
      } in
      λ x. then_Ordered ops fifo laws c d (next d).1 first (rest x)

  answer-InOrder :
      (next : SerialConsole U → Ended × SerialConsole U) (a : StdinAnswer) (c : SerialConsole U)
      → Continues next
      → c.pending_rx ≡ []
      → InOrder c (on_input ops next a c)
  answer-InOrder next (input b bs) c goes none_ =
      let k = min (ops.fifo_capacity c.uart) 64 in
      input-InOrder next c (take k (b ∷ bs)) goes none_ (ops.enqueue (take k (b ∷ bs)) c.uart)
        (λ n x.
          (laws.enqueue_all (take k (b ∷ bs)) c.uart n (omega (arith, length-take k (b ∷ bs))) x).1)
  answer-InOrder next eof c goes none_ =
      λ x. no_bytes ops fifo laws c (record c { stdin_ready = false }) refl refl
  answer-InOrder next would_block c goes none_ = λ x. no_bytes ops fifo laws c c refl refl
  answer-InOrder next eintr c goes none_ = goes c (inl none_)
  answer-InOrder next read_fails c goes none_ = λ x. cc

  drain_rounds-InOrder :
      (answers : List StdinAnswer) (c : SerialConsole U)
      → Settled c
      → InOrder c (drain_rounds ops answers c)
  unfolding drain_rounds
  drain_rounds-InOrder [] c s = by (ops.fifo_capacity c.uart == 0)
    where
      by : (b : Bool) → InOrder c (if b then fine else spins, c)
      by true = λ x. no_bytes ops fifo laws c c refl refl
      by false = λ x. cc
  drain_rounds-InOrder (a ∷ rest) c s =
      by (ops.fifo_capacity c.uart == 0) refl s (λ d. drain_rounds-InOrder rest d)
    where
      next : SerialConsole U
      next = record c { stdin = rest }

      by :
          (b : Bool)
          → (ops.fifo_capacity c.uart == 0) ≡ b
          → Settled c
          → Continues (drain_rounds ops rest)
          → InOrder c (if b then (fine, c) else on_input ops (drain_rounds ops rest) a next)
      by true z t goes = λ x. no_bytes ops fifo laws c c refl refl
      by false z (inl none_) goes =
          let r = answer-InOrder (drain_rounds ops rest) a next goes none_ in
          λ x.
            then_Ordered ops fifo laws c next (on_input ops (drain_rounds ops rest) a next).1
              (no_bytes ops fifo laws c next refl refl) (r x)
      by false z (inr full) goes = absurd (ground arith)

  -- An interrupt changes neither the line nor what was read.
  Raised : SerialConsole U → Ended × SerialConsole U → Type 0
  Raised c r = (r.1.taken ≡ c.taken) × (r.1.uart ≡ c.uart) × (r.1.pending_rx ≡ c.pending_rx)

  reassert_rx_irq-Raised : (c : SerialConsole U) → Raised c (reassert_rx_irq ops c)
  unfolding Raised reassert_rx_irq
  reassert_rx_irq-Raised c = by (ltb (ops.fifo_capacity c.uart) uart_fifo_size) c.irq_writes
    where
      by : (b : Bool) (l : List Bool) → Raised c (if b then raise_irq ops l c else (fine, c))
      by true [] = (refl, refl, refl)
      by true (true ∷ rest) = (refl, refl, refl)
      by true (false ∷ rest) = (refl, refl, refl)
      by false l = (refl, refl, refl)

  -- The rest of `drain_stdin` after the interrupt, and after the flush.
  read_in : SerialConsole U → Ended × SerialConsole U
  read_in e = if e.stdin_ready then drain_rounds ops e.stdin e else (fine, e)

  read_in-InOrder : (c : SerialConsole U) → Settled c → InOrder c (read_in c)
  unfolding read_in
  read_in-InOrder c s = by c.stdin_ready
    where
      by : (b : Bool) → InOrder c (if b then drain_rounds ops c.stdin c else (fine, c))
      by true = drain_rounds-InOrder c.stdin c s
      by false = λ x. no_bytes ops fifo laws c c refl refl

  interrupt-InOrder :
      (c : SerialConsole U) (r : Ended × SerialConsole U)
      → Settled c
      → Raised c r
      → InOrder c (and_then ops r read_in)
  unfolding Raised
  interrupt-InOrder c (fine, d) s (t, u, p) =
      let settled : Settled d = settled_like s in
      let r = read_in-InOrder d settled in
      λ x.
        then_Ordered ops fifo laws c d (read_in d).1
          (no_bytes ops fifo laws c d t
            (ap (λ v. fifo v ++ d.pending_rx) u ∙ ap (λ l. fifo c.uart ++ l) p))
          (r x)
    where
      settled_like : Settled c → Settled d
      settled_like (inl none_) = inl (p ∙ none_)
      settled_like (inr full) = inr (ap ops.fifo_capacity u ∙ full)
  interrupt-InOrder c (failed, d) s (t, u, p) = λ x. cc
  interrupt-InOrder c (spins, d) s (t, u, p) = λ x. cc

  settle-InOrder :
      (c : SerialConsole U) (r : Ended × SerialConsole U)
      → Flushed ops fifo laws c r
      → InOrder c (and_then ops r (λ d. and_then ops (reassert_rx_irq ops d) read_in))
  settle-InOrder c (fine, d) f =
      let r =
        interrupt-InOrder d (reassert_rx_irq ops d) (f.settled refl) (reassert_rx_irq-Raised d) in
      λ x.
        then_Ordered ops fifo laws c d (and_then ops (reassert_rx_irq ops d) read_in).1
          (no_bytes ops fifo laws c d f.same_taken (f.same_line refl)) (r x)
  settle-InOrder c (failed, d) f = λ x. cc
  settle-InOrder c (spins, d) f = λ x. cc

  drain_stdin-InOrder : (c : SerialConsole U) → InOrder c (drain_stdin ops c)
  unfolding drain_stdin read_in
  drain_stdin-InOrder c =
      settle-InOrder c (flush_pending_rx ops c) (flush_pending_rx-Flushed ops fifo laws c)

-- Out of loopback mode, if `drain_stdin` ends well, then what the guest has yet to read, in the FIFO
-- and waiting for room in it, is what it had yet to read before with the bytes that were read from
-- stdin behind it, in their order: none is lost or doubled, and a reply to a query is not overtaken.
pub drain_stdin-Ordered :
    {U : Type 0} (ops : UartOps U) (fifo : U → List ℕ) (laws : UartLaws ops fifo)
    (c : SerialConsole U)
    → (drain_stdin ops c).0 ≡ fine
    → Ordered ops fifo laws c (drain_stdin ops c).1
drain_stdin-Ordered ops fifo laws c e = drain_stdin-InOrder ops fifo laws c e
