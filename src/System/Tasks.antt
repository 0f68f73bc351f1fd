-- ===== src/System/Tasks.antt =====
-- src/server.rs: the uplinks in the channel of one client, and those that it takes.
use mathlib.Core.Path.{subst}
use mathlib.Core.List.{Sublist, sublist-append_right, nil-sublist}
use mathlib.Core.List.Sublist
use gateway_rs.Base.{
  ℕ, ◌≡◌, sym, ap, ◌∙◌, false, List, [], ◌∷◌, ◌++◌, append_assoc, append-nil, Bool-cases, inl, inr,
  Option, none, some, ◌==◌, ==_iff,
}
use gateway_rs.Router.Dispatcher.Sent.{sent_to}
use gateway_rs.Router.Client.{Outside, RouterClient}
use gateway_rs.System.{Task, update, receives}
use gateway_rs.System.Sends.{uplink_of, left, take_message, tick_client}
use gateway_rs.Radio.Packet.{Packet}
use gateway_rs.Router.Client.{Message}
use gateway_rs.Router.Client as Client
use gateway_rs.System.{Timed, Effects}

-- One task changes.
pub at_client :
    {A : Type 0} (Q : ℕ → A → Type 0) (f : ℕ → A) (j : ℕ) (a : A)
    → Q j a
    → ((i : ℕ) → (j == i) ≡ false → Q i (f i))
    → (i : ℕ) → Q i (update f j a i)
at_client Q f j a changed others i = elim (Bool-cases (j == i)) [
  | inl e ↦ rw e (subst (λ x. Q x a) ((==_iff j i).0 e) changed)
  | inr e ↦ rw e (others i e)
]

module _ {N T R : Type 0} where
  -- The uplinks in a client's channel.
  abbrev pub carried : List (Message (Packet N T) R) → List (Timed N T)
  carried [] = []
  carried (m ∷ rest) = uplink_of m ++ carried rest

  carried-push :
      (inbox : List (Message (Packet N T) R)) (m : Message (Packet N T) R)
      → carried (inbox ++ m ∷ []) ≡ carried inbox ++ uplink_of m
  carried-push [] m = append-nil (uplink_of m)
  carried-push (first ∷ rest) m =
      ap (λ l. uplink_of first ++ l) (carried-push rest m)
      ∙ sym (append_assoc (uplink_of first) (carried rest) (uplink_of m))

  left-sublist :
      {K : Type 0} (client : Option (RouterClient (Packet N T) R K))
      (rest : List (Message (Packet N T) R))
      → Sublist (carried (left client rest)) (carried rest)
  left-sublist none rest = nil-sublist (carried rest)
  left-sublist (some client) rest = Sublist.refl (carried rest)

module _ {V N T R K S : Type 0} where
  -- What a client has been handed, what is in its channel, and what the dispatcher has still to send to it,
  -- are in this order some of the uplinks that the dispatcher has taken.
  abbrev pub Fine : ℕ → Effects V N T R → List (Timed N T) → Task N T R K S → Type 0
  Fine i unsent dispatched task =
      Sublist (task.handed ++ (carried task.inbox ++ sent_to i unsent)) dispatched

  pub receives-Fine :
      (client : Option (RouterClient (Packet N T) R K)) (m : Message (Packet N T) R) (i : ℕ)
      (rest : Effects V N T R) (dispatched : List (Timed N T)) (task : Task N T R K S)
      → Sublist (task.handed ++ (carried task.inbox ++ (uplink_of m ++ sent_to i rest))) dispatched
      → Fine i rest dispatched (receives client m task)
  unfolding receives
  receives-Fine none m i rest dispatched task h =
      Sublist.trans
        (Sublist.append (Sublist.refl task.handed) (
          Sublist.append (Sublist.refl (carried task.inbox))
            (sublist-append_right (uplink_of m) (sent_to i rest))))
        h
  receives-Fine (some client) m i rest dispatched task h =
      subst (λ l. Sublist (task.handed ++ l) dispatched)
        (sym (
          ap (λ l. l ++ sent_to i rest) (carried-push task.inbox m)
          ∙ append_assoc (carried task.inbox) (uplink_of m) (sent_to i rest)))
        h

  pub take_message-Fine :
      {E : Type 0} (out : Outside (Packet N T) R K S E) (to_send : List (Packet N T))
      (inbox : List (Message (Packet N T) R)) (client : Option (RouterClient (Packet N T) R K))
      (i : ℕ) (unsent : Effects V N T R) (dispatched : List (Timed N T)) (task : Task N T R K S)
      → Sublist (task.handed ++ (carried inbox ++ sent_to i unsent)) dispatched
      → Fine i unsent dispatched task
      → Fine i unsent dispatched (take_message out to_send inbox client task)
  unfolding take_message
  take_message-Fine out (p ∷ to_send) inbox client i unsent dispatched task h keep = keep
  take_message-Fine out [] [] client i unsent dispatched task h keep = keep
  take_message-Fine out [] (m ∷ rest) none i unsent dispatched task h keep = keep
  take_message-Fine out [] (m ∷ rest) (some client) i unsent dispatched task h keep =
      let after = (Client.handle_message out m client task.calls).0 in
      subst (λ l. Sublist l dispatched)
        (sym
          (append_assoc task.handed (uplink_of m) (carried (left after rest) ++ sent_to i unsent)))
        (Sublist.trans
          (Sublist.append (Sublist.refl task.handed) (
            subst (λ l. Sublist (uplink_of m ++ (carried (left after rest) ++ sent_to i unsent)) l)
              (sym (append_assoc (uplink_of m) (carried rest) (sent_to i unsent)))
              (Sublist.append (Sublist.refl (uplink_of m))
                (Sublist.append (left-sublist after rest) (Sublist.refl (sent_to i unsent))))))
          h)

  pub tick_client-Fine :
      {E : Type 0} (out : Outside (Packet N T) R K S E) (now : ℕ) (to_send : List (Packet N T))
      (client : Option (RouterClient (Packet N T) R K)) (i : ℕ) (unsent : Effects V N T R)
      (dispatched : List (Timed N T)) (task : Task N T R K S)
      → Fine i unsent dispatched task
      → Fine i unsent dispatched (tick_client out now to_send client task)
  unfolding tick_client
  tick_client-Fine out now (p ∷ to_send) client i unsent dispatched task h = h
  tick_client-Fine out now [] none i unsent dispatched task h = h
  tick_client-Fine out now [] (some client) i unsent dispatched task h = h
