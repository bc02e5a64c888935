-- ===== src/Console/Ends.antt =====
-- The loops of `drain_stdin` of src/devices/serial.rs come to an end.
use kitsune.Base.{
  ℕ, zero, suc, ◌≤◌, ◌<◌, ◌≡◌, ◌≢◌, refl, ap, sym, subst, min, Bool, true, false, Option, none,
  some, List, [], ◌∷◌, ◌==◌, ltb, if◌then◌else◌, is_empty, length, take, drop, ◌++◌, length-take,
  arith,
}
use kitsune.Console.Uart.{UartOps, UartLaws}
use kitsune.Console.Serial.{
  SerialConsole, StdinAnswer, Ended, fine, failed, spins, input, eof, would_block, eintr,
  read_fails, and_then, after_enqueue, flush_rounds, flush_pending_rx, reassert_rx_irq, raise_irq,
  after_input, on_input, drain_rounds, drain_stdin, uart_fifo_size,
}
use kitsune.Console.Order.{flush_pending_rx-Flushed}

-- The answers are enough for a FIFO with so much room: before they run out, stdin has ended, would
-- block or has failed, or as many reads have given bytes as there is room for bytes.
abbrev pub Enough : ℕ → List StdinAnswer → Type 0
Enough zero answers = Unit
Enough (suc room) [] = ⊥
Enough (suc room) (input b bs ∷ answers) = Enough room answers
Enough (suc room) (eintr ∷ answers) = Enough (suc room) answers
Enough (suc room) (eof ∷ answers) = Unit
Enough (suc room) (would_block ∷ answers) = Unit
Enough (suc room) (read_fails ∷ answers) = Unit

-- Less room needs fewer answers.
Enough-less : (m n : ℕ) (answers : List StdinAnswer) → m ≤ n → Enough n answers → Enough m answers
Enough-less zero n answers h e = tt
Enough-less (suc m) zero answers h e = absurd (omega (arith, h))
Enough-less (suc m) (suc n) [] h e = e
Enough-less (suc m) (suc n) (input b bs ∷ answers) h e =
    Enough-less m n answers (omega (arith, h)) e
Enough-less (suc m) (suc n) (eintr ∷ answers) h e = Enough-less (suc m) (suc n) answers h e
Enough-less (suc m) (suc n) (eof ∷ answers) h e = tt
Enough-less (suc m) (suc n) (would_block ∷ answers) h e = tt
Enough-less (suc m) (suc n) (read_fails ∷ answers) h e = tt

Enough-input :
    (n m b : ℕ) (bs : List ℕ) (answers : List StdinAnswer)
    → m < n
    → Enough n (input b bs ∷ answers)
    → Enough m answers
Enough-input zero m b bs answers h e = absurd (omega (arith, h))
Enough-input (suc n) m b bs answers h e = Enough-less m n answers (omega (arith, h)) e

Enough-eintr : (n : ℕ) (answers : List StdinAnswer) → Enough n (eintr ∷ answers) → Enough n answers
Enough-eintr zero answers e = tt
Enough-eintr (suc n) answers e = e

Enough-nil : (n : ℕ) → Enough n [] → n ≡ 0
Enough-nil zero e = refl
Enough-nil (suc n) e = absurd e

module _ {U : Type 0} (ops : UartOps U) (fifo : U → List ℕ) (laws : UartLaws ops fifo) where
  -- The answers are enough for the loop from `c` on.
  abbrev Supplied : SerialConsole U → Type 0
  Supplied c = Enough (ops.fifo_capacity c.uart) c.stdin

  input_ends :
      (next : SerialConsole U → Ended × SerialConsole U) (c : SerialConsole U) (bytes : List ℕ)
      → ((d : SerialConsole U)
          → ops.fifo_capacity d.uart < ops.fifo_capacity c.uart
          → (next d).0 ≢ spins)
      → (r : Option ℕ × U)
      → ((n : ℕ) → r.0 ≡ some n → ops.fifo_capacity r.1 < ops.fifo_capacity c.uart)
      → (after_input ops next c bytes r).0 ≢ spins
  input_ends next c bytes goes (none, u) law = λ x. cc
  input_ends next c bytes goes (some n, u) law =
      goes (record c { uart = u; taken = c.taken ++ bytes }) (law n refl)

  answer_ends :
      (rest : List StdinAnswer) (a : StdinAnswer) (c : SerialConsole U)
      → (ops.fifo_capacity c.uart == 0) ≡ false
      → Enough (ops.fifo_capacity c.uart) (a ∷ rest)
      → ((d : SerialConsole U)
          → Enough (ops.fifo_capacity d.uart) rest
          → (drain_rounds ops rest d).0 ≢ spins)
      → (on_input ops (drain_rounds ops rest) a c).0 ≢ spins
  answer_ends rest (input b bs) c room e goes =
      let k = min (ops.fifo_capacity c.uart) 64 in
      let bytes = take k (b ∷ bs) in
      input_ends (drain_rounds ops rest) c bytes
        (λ d less.
          goes d
            (Enough-input (ops.fifo_capacity c.uart) (ops.fifo_capacity d.uart) b bs rest less e))
        (ops.enqueue bytes c.uart)
        (λ n x.
          let l = laws.enqueue_all bytes c.uart n (omega (arith, length-take k (b ∷ bs))) x in
          let some_ : 1 ≤ ops.fifo_capacity c.uart = ground (arith, room) in
          omega (arith, l.0, l.2, length-take k (b ∷ bs), some_))
  answer_ends rest eof c room e goes = λ x. cc
  answer_ends rest would_block c room e goes = λ x. cc
  answer_ends rest eintr c room e goes = goes c (Enough-eintr (ops.fifo_capacity c.uart) rest e)
  answer_ends rest read_fails c room e goes = λ x. cc

  drain_rounds_end :
      (answers : List StdinAnswer) (c : SerialConsole U)
      → Enough (ops.fifo_capacity c.uart) answers
      → (drain_rounds ops answers c).0 ≢ spins
  unfolding drain_rounds
  drain_rounds_end [] c e = by (ops.fifo_capacity c.uart == 0) refl
    where
      by : (b : Bool) → (ops.fifo_capacity c.uart == 0) ≡ b → (if b then fine else spins) ≢ spins
      by true z = λ x. cc
      by false z =
          let full = Enough-nil (ops.fifo_capacity c.uart) e in absurd (ground (arith, z, full))
  drain_rounds_end (a ∷ rest) c e =
      by (ops.fifo_capacity c.uart == 0) refl (λ d. drain_rounds_end rest d)
    where
      by :
          (b : Bool)
          → (ops.fifo_capacity c.uart == 0) ≡ b
          → ((d : SerialConsole U)
              → Enough (ops.fifo_capacity d.uart) rest
              → (drain_rounds ops rest d).0 ≢ spins)
          → (if b
              then (fine, c)
              else on_input ops (drain_rounds ops rest) a (record c { stdin = rest })).0
            ≢ spins
      by true z goes = λ x. cc
      by false z goes = answer_ends rest a (record c { stdin = rest }) z e goes

  -- A call that has ended well has read nothing and made no room in the FIFO.
  abbrev Shrinks : SerialConsole U → Ended × SerialConsole U → Type 0
  Shrinks c r =
      r.0 ≡ fine → (ops.fifo_capacity r.1.uart ≤ ops.fifo_capacity c.uart) × (r.1.stdin ≡ c.stdin)

  enqueue-Shrinks :
      (next : SerialConsole U → Ended × SerialConsole U) (c : SerialConsole U)
      → ((d : SerialConsole U) → Shrinks d (next d))
      → (r : Option ℕ × U)
      → ((n : ℕ) → r.0 ≡ some n → ops.fifo_capacity r.1 ≤ ops.fifo_capacity c.uart)
      → Shrinks c (after_enqueue ops next c r)
  enqueue-Shrinks next c goes (none, u) law = λ x. cc
  enqueue-Shrinks next c goes (some n, u) law = λ x.
      let d : SerialConsole U = record c { uart = u; pending_rx = drop n c.pending_rx } in
      let (less, same) = goes d x in (omega (arith, less, law n refl), same)

  flush_rounds-Shrinks : (fuel : ℕ) (c : SerialConsole U) → Shrinks c (flush_rounds ops fuel c)
  unfolding flush_rounds
  flush_rounds-Shrinks zero c = λ x. (omega arith, refl)
  flush_rounds-Shrinks (suc fuel) c =
      by (is_empty c.pending_rx) (ops.fifo_capacity c.uart == 0) (flush_rounds-Shrinks fuel)
    where
      k : ℕ
      k = min (ops.fifo_capacity c.uart) (length c.pending_rx)

      by :
          (b f : Bool)
          → ((d : SerialConsole U) → Shrinks d (flush_rounds ops fuel d))
          → Shrinks c (
              if b
              then (fine, c)
              else if f
              then (fine, c)
              else after_enqueue ops
                  (flush_rounds ops fuel)
                  c
                  (ops.enqueue (take k c.pending_rx) c.uart))
      by true f goes = λ x. (omega arith, refl)
      by false true goes = λ x. (omega arith, refl)
      by false false goes =
          enqueue-Shrinks (flush_rounds ops fuel) c goes (ops.enqueue (take k c.pending_rx) c.uart)
            (λ n x.
              let l =
                laws.enqueue_all (take k c.pending_rx) c.uart n
                  (omega (arith, length-take k c.pending_rx)) x in
              omega (arith, l.2))

  -- The interrupt is raised at once, and changes neither the UART nor what stdin answers.
  Raises : SerialConsole U → Ended × SerialConsole U → Type 0
  Raises c r = (r.0 ≢ spins) × (r.1.uart ≡ c.uart) × (r.1.stdin ≡ c.stdin)

  reassert_rx_irq-Raises : (c : SerialConsole U) → Raises c (reassert_rx_irq ops c)
  unfolding Raises reassert_rx_irq
  reassert_rx_irq-Raises c = by (ltb (ops.fifo_capacity c.uart) uart_fifo_size) c.irq_writes
    where
      by : (b : Bool) (l : List Bool) → Raises c (if b then raise_irq ops l c else (fine, c))
      by true [] = (λ x. cc, refl, refl)
      by true (true ∷ rest) = (λ x. cc, refl, refl)
      by true (false ∷ rest) = (λ x. cc, refl, refl)
      by false l = (λ x. cc, refl, refl)

  -- The rest of `drain_stdin` after the interrupt.
  read_in : SerialConsole U → Ended × SerialConsole U
  read_in e = if e.stdin_ready then drain_rounds ops e.stdin e else (fine, e)

  read_in_ends : (c : SerialConsole U) → Supplied c → (read_in c).0 ≢ spins
  unfolding read_in
  read_in_ends c e = by c.stdin_ready
    where
      by : (b : Bool) → (if b then drain_rounds ops c.stdin c else (fine, c)).0 ≢ spins
      by true = drain_rounds_end c.stdin c e
      by false = λ x. cc

  interrupt_ends :
      (c : SerialConsole U) (r : Ended × SerialConsole U)
      → Supplied c
      → Raises c r
      → (and_then ops r read_in).0 ≢ spins
  unfolding Raises
  interrupt_ends c (fine, d) e (ends, u, s) = read_in_ends d (
      subst (λ n. Enough n d.stdin) (ap ops.fifo_capacity (sym u))
        (subst (Enough (ops.fifo_capacity c.uart)) (sym s) e))
  interrupt_ends c (failed, d) e (ends, u, s) = ends
  interrupt_ends c (spins, d) e (ends, u, s) = ends

  flush_ends :
      (c : SerialConsole U) (r : Ended × SerialConsole U)
      → Supplied c
      → r.0 ≢ spins
      → Shrinks c r
      → (and_then ops r (λ d. and_then ops (reassert_rx_irq ops d) read_in)).0 ≢ spins
  flush_ends c (fine, d) e ends less =
      let (l, s) = less refl in
      interrupt_ends d (reassert_rx_irq ops d)
        (Enough-less (ops.fifo_capacity d.uart) (ops.fifo_capacity c.uart) d.stdin l
          (subst (Enough (ops.fifo_capacity c.uart)) (sym s) e))
        (reassert_rx_irq-Raises d)
  flush_ends c (failed, d) e ends less = ends
  flush_ends c (spins, d) e ends less = ends

-- Out of loopback mode, the loops of `drain_stdin` come to an end, if stdin answers with its end, with
-- WouldBlock or with an error before its answers run out, or if as many reads give bytes as the FIFO
-- has room for bytes.
pub drain_stdin_ends :
    {U : Type 0} (ops : UartOps U) (fifo : U → List ℕ) (laws : UartLaws ops fifo)
    (c : SerialConsole U)
    → Enough (ops.fifo_capacity c.uart) c.stdin
    → (drain_stdin ops c).0 ≢ spins
unfolding drain_stdin flush_pending_rx read_in
drain_stdin_ends ops fifo laws c e =
    flush_ends ops fifo laws c (flush_pending_rx ops c) e
      (flush_pending_rx-Flushed ops fifo laws c).ends
      (flush_rounds-Shrinks ops fifo laws (length c.pending_rx) c)
