-- ===== src/Console/Order.antt =====
-- The order of the bytes that src/devices/serial.rs passes to the guest, and the end of its loops.
use kitsune.Base.{
  ℕ, zero, suc, ◌≤◌, min, ◌≡◌, ◌≢◌, refl, ap, sym, ◌∙◌, inl, inr, ◌⊎◌, Bool, true, false, Option,
  none, some, List, [], ◌∷◌, ◌++◌, append-nil, append_assoc, ◌==◌, if◌then◌else◌, length, is_empty,
  take, drop, length-take, length-drop, take-append-drop, arith,
}
use kitsune.Console.Uart.{UartOps, UartLaws}
use kitsune.Console.Serial.{
  SerialConsole, Ended, fine, spins, after_enqueue, flush_rounds, flush_pending_rx,
}

module _ {U : Type 0} (ops : UartOps U) (fifo : U → List ℕ) (laws : UartLaws ops fifo) where
  -- What the guest has yet to read: the bytes in the FIFO, and those that wait for room in it.
  abbrev pub line : SerialConsole U → List ℕ
  line c = fifo c.uart ++ c.pending_rx

  -- A flush that ends well keeps the line and what was read, and nothing waits while there is room.
  pub record Flushed (c : SerialConsole U) (r : Ended × SerialConsole U) : Type 0 where
    pub ends : r.0 ≢ spins
    pub same_line : r.0 ≡ fine → line r.1 ≡ line c
    pub settled : r.0 ≡ fine → (r.1.pending_rx ≡ []) ⊎ (ops.fifo_capacity r.1.uart ≡ 0)
    pub same_taken : r.1.taken ≡ c.taken

  -- The line after the UART has taken the first `n` bytes that wait.
  moved_line :
      (c : SerialConsole U) (n : ℕ) (u : U)
      → fifo u ≡ fifo c.uart ++ take n c.pending_rx
      → line (record c { uart = u; pending_rx = drop n c.pending_rx }) ≡ line c
  moved_line c n u e =
      ap (λ l. l ++ drop n c.pending_rx) e
      ∙ (append_assoc (fifo c.uart) (take n c.pending_rx) (drop n c.pending_rx)
          ∙ ap (λ l. fifo c.uart ++ l) (take-append-drop n c.pending_rx))

  enqueued :
      (next : SerialConsole U → Ended × SerialConsole U) (c : SerialConsole U) (k fuel : ℕ)
      → length c.pending_rx ≤ suc fuel
      → 1 ≤ k
      → ((d : SerialConsole U) → length d.pending_rx ≤ fuel → Flushed d (next d))
      → (r : Option ℕ × U)
      → ((n : ℕ) → r.0 ≡ some n → (n ≡ k) × (fifo r.1 ≡ fifo c.uart ++ take k c.pending_rx))
      → Flushed c (after_enqueue ops next c r)
  enqueued next c k fuel most some_ ih (none, u) law = record {
    ends = λ x. cc;
    same_line = λ x. cc;
    settled = λ x. cc;
    same_taken = refl;
  }
  enqueued next c k fuel most some_ ih (some n, u) law =
      let (same, e) = law n refl in
      let d : SerialConsole U = record c { uart = u; pending_rx = drop n c.pending_rx } in
      let f = ih d (omega (arith, length-drop n c.pending_rx, same, most, some_)) in
      record {
        ends = f.ends;
        same_line = λ x.
            f.same_line x
            ∙ moved_line c n u (e ∙ ap (λ j. fifo c.uart ++ take j c.pending_rx) (sym same));
        settled = f.settled;
        same_taken = f.same_taken;
      }

  nothing_left : (c : SerialConsole U) → c.pending_rx ≡ [] → Flushed c (fine, c)
  nothing_left c e = record {
    ends = λ x. cc;
    same_line = λ x. refl;
    settled = λ x. inl e;
    same_taken = refl;
  }

  is_empty-nil : (l : List ℕ) → is_empty l ≡ true → l ≡ []
  is_empty-nil [] e = refl
  is_empty-nil (x ∷ l) e = cc

  flush_rounds-Flushed :
      (fuel : ℕ) (c : SerialConsole U)
      → length c.pending_rx ≤ fuel
      → Flushed c (flush_rounds ops fuel c)
  unfolding flush_rounds
  flush_rounds-Flushed zero c h = by c.pending_rx refl
    where
      by : (l : List ℕ) → l ≡ c.pending_rx → Flushed c (if is_empty l then fine else spins, c)
      by [] e = nothing_left c (sym e)
      by (b ∷ l) e = absurd (ground arith)
  flush_rounds-Flushed (suc fuel) c h =
      by (is_empty c.pending_rx) refl (ops.fifo_capacity c.uart == 0) refl
        (flush_rounds-Flushed fuel)
    where
      k : ℕ
      k = min (ops.fifo_capacity c.uart) (length c.pending_rx)

      same_length : length (take k c.pending_rx) ≡ k
      same_length = omega (arith, length-take k c.pending_rx)

      some_left : is_empty c.pending_rx ≡ false → (ops.fifo_capacity c.uart == 0) ≡ false → 1 ≤ k
      some_left e z = measured c.pending_rx e
        where
          measured :
              (l : List ℕ) → is_empty l ≡ false → 1 ≤ min (ops.fifo_capacity c.uart) (length l)
          measured [] x = cc
          measured (b ∷ l) x = ground arith

      by :
          (b : Bool)
          → is_empty c.pending_rx ≡ b
          → (f : Bool) → (ops.fifo_capacity c.uart == 0) ≡ f
          → ((d : SerialConsole U)
              → length d.pending_rx ≤ fuel
              → Flushed d (flush_rounds ops fuel d))
          → Flushed c (
              if b
              then (fine, c)
              else if f
              then (fine, c)
              else after_enqueue ops
                  (flush_rounds ops fuel)
                  c
                  (ops.enqueue (take k c.pending_rx) c.uart))
      by true e f z ih = nothing_left c (is_empty-nil c.pending_rx e)
      by false e true z ih = record {
        ends = λ x. cc;
        same_line = λ x. refl;
        settled = λ x. inr (ground arith);
        same_taken = refl;
      }
      by false e false z ih =
          enqueued (flush_rounds ops fuel) c k fuel h (some_left e z) ih
            (ops.enqueue (take k c.pending_rx) c.uart)
            (λ n x.
              let l =
                laws.enqueue_all (take k c.pending_rx) c.uart n (omega (arith, same_length)) x in
              (l.0 ∙ same_length, l.1))

  pub flush_pending_rx-Flushed : (c : SerialConsole U) → Flushed c (flush_pending_rx ops c)
  unfolding flush_pending_rx
  flush_pending_rx-Flushed c = flush_rounds-Flushed (length c.pending_rx) c (omega arith)

  -- What was read from stdin stands at the end of the line, in its order.
  pub record Ordered (c : SerialConsole U) (d : SerialConsole U) : Type 0 where
    pub bytes : List ℕ
    pub read_them : d.taken ≡ c.taken ++ bytes
    pub lined_up : line d ≡ line c ++ bytes

  pub no_bytes : (c d : SerialConsole U) → d.taken ≡ c.taken → line d ≡ line c → Ordered c d
  no_bytes c d t l = record {
    bytes = [];
    read_them = t ∙ sym (append-nil c.taken);
    lined_up = l ∙ sym (append-nil (line c));
  }

  pub then_Ordered : (c d e : SerialConsole U) → Ordered c d → Ordered d e → Ordered c e
  then_Ordered c d e p q = record {
    bytes = p.bytes ++ q.bytes;
    read_them =
        q.read_them ∙ (ap (λ l. l ++ q.bytes) p.read_them ∙ append_assoc c.taken p.bytes q.bytes);
    lined_up =
        q.lined_up ∙ (ap (λ l. l ++ q.bytes) p.lined_up ∙ append_assoc (line c) p.bytes q.bytes);
  }
