-- ===== src/Vsock/Queue/Drop.antt =====
-- What the end of a connection leaves: `drop_conn` and `enqueue_rst`.
use kitsune.Base.{
  ◌≡◌, refl, ap, Bool, true, false, not, List, [], ◌∷◌, none, retain, retain-append, append-nil,
  if◌then◌else◌, inl, inr, Bool-cases,
}
use kitsune.Vsock.Flow.{Flow, flow_eq, flow_eq_refl, get, get-remove}
use kitsune.Vsock.Packet.{OutPkt, ctrl, op_rst}
use kitsune.Vsock.State.{Mux}
use kitsune.Vsock.Queue.{enqueue, enqueue_rst, drop_conn, other_flow, is_ctrl}

abbrev pub of_flow : Flow → OutPkt → Bool
of_flow flow p = flow_eq p.flow flow

own_of_others :
    (flow : Flow) (ps : List OutPkt) → retain (of_flow flow) (retain (other_flow flow) ps) ≡ []
own_of_others flow [] = refl
own_of_others flow (p ∷ ps) = elim (Bool-cases (flow_eq p.flow flow)) [
  | inl e ↦ rw e (own_of_others flow ps)
  | inr e ↦ rw e (rw e (own_of_others flow ps))
]

others_twice :
    (flow : Flow) (ps : List OutPkt)
    → retain (other_flow flow) (retain (other_flow flow) ps) ≡ retain (other_flow flow) ps
others_twice flow [] = refl
others_twice flow (p ∷ ps) = elim (Bool-cases (flow_eq p.flow flow)) [
  | inl e ↦ rw e (others_twice flow ps)
  | inr e ↦ rw e (rw e (ap (λ t. p ∷ t) (others_twice flow ps)))
]

abbrev not_rst : Flow → OutPkt → Bool
not_rst flow p = not (is_ctrl flow op_rst p)

others_not_rst :
    (flow : Flow) (ps : List OutPkt)
    → retain (not_rst flow) (retain (other_flow flow) ps) ≡ retain (other_flow flow) ps
others_not_rst flow [] = refl
others_not_rst flow (p ∷ ps) = elim (Bool-cases (flow_eq p.flow flow)) [
  | inl e ↦ rw e (others_not_rst flow ps)
  | inr e ↦ rw e (rw e (ap (λ t. p ∷ t) (others_not_rst flow ps)))
]

-- What `drop_conn` leaves of a flow and of the others.
pub record Dropped (m m' : Mux) (flow : Flow) (rst : Bool) : Type 0 where
  pub gone : get flow m'.conns ≡ none
  pub kept : (j : Flow) → flow_eq flow j ≡ false → get j m'.conns ≡ get j m.conns
  pub own_data : retain (of_flow flow) m'.out_data ≡ []
  pub own_ctrl : retain (of_flow flow) m'.out_ctrl ≡ (if rst then ctrl flow op_rst 0 ∷ [] else [])
  pub other_data : retain (other_flow flow) m'.out_data ≡ retain (other_flow flow) m.out_data
  pub other_ctrl : retain (other_flow flow) m'.out_ctrl ≡ retain (other_flow flow) m.out_ctrl

-- `drop_conn` removes the connection with every packet that waits for it, announces the end by one
-- RST if it was asked to, and leaves the other connections and their packets, in order.
pub drop_conn-Dropped :
    (m : Mux) (flow : Flow) (rst : Bool) → Dropped m (drop_conn m flow rst) flow rst
unfolding drop_conn enqueue_rst enqueue
drop_conn-Dropped m flow false = record {
  gone = rw (get-remove, flow_eq_refl flow);
  kept = λ j n. rw (get-remove, n);
  own_data = own_of_others flow m.out_data;
  own_ctrl = own_of_others flow m.out_ctrl;
  other_data = others_twice flow m.out_data;
  other_ctrl = others_twice flow m.out_ctrl;
}
drop_conn-Dropped m flow true = record {
  gone = rw (get-remove, flow_eq_refl flow);
  kept = λ j n. rw (get-remove, n);
  own_data = own_of_others flow m.out_data;
  own_ctrl = rw (others_not_rst, retain-append, own_of_others, flow_eq_refl flow);
  other_data = others_twice flow m.out_data;
  other_ctrl = rw (others_not_rst, retain-append, others_twice, flow_eq_refl flow) (append-nil _);
}
