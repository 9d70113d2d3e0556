-- ===== src/Queues/Order.antt =====
-- What passes through the queues of punches, whoever puts in and takes out.
use p2p_channel.Base.{
  ℕ, ◌≤◌, ◌<◌, ◌≡◌, ◌∙◌, refl, sym, ap, Option, none, some, List, [], ◌∷◌, ◌++◌, length,
  length-append, arith, Result, ok, err,
}
use mathlib.Core.List.{append-nil, append_assoc}
use p2p_channel.Punch.{NatType, NatInfo}
use p2p_channel.Queues.{
  TrySent, sent, full, disconnected, Recv, received, timeout, hung_up, sent_item, received_item,
  some_item, QueueApi, result_of, Queues, boot_queues, send_by_type, punch, on_recv,
  on_recv_timeout, next_item, next_symmetric, next_cone,
}

-- A call on some channel or punch, in the order in which the calls take effect.
pub data Call (ID : Type 0) : Type 0 where
  put : ID → NatInfo → Call ID
  take : NatType → Option ℕ → Call ID

-- A call with its result.
pub data Event (ID : Type 0) : Type 0 where
  was_put : ID × NatInfo → Result (Unit {0}) → Event ID
  was_taken : NatType → Result (ID × NatInfo) → Event ID

abbrev pub of_type : {A : Type 0} → NatType → NatType → List A → List A
of_type NatType.cone NatType.cone xs = xs
of_type NatType.symmetric NatType.symmetric xs = xs
of_type _ _ xs = []

-- The item of a `punch` that succeeded, for a peer with the NAT type.
abbrev pub accepted_one : {ID : Type 0} → NatType → Event ID → List (ID × NatInfo)
accepted_one ty (was_put item (ok done)) = of_type ty (item.1).nat_type (item ∷ [])
accepted_one ty _ = []

-- The item that `next_cone` or `next_symmetric` has returned.
abbrev pub taken_one : {ID : Type 0} → NatType → Event ID → List (ID × NatInfo)
taken_one ty (was_taken from (ok item)) = of_type ty from (item ∷ [])
taken_one ty _ = []

abbrev pub accepted : {ID : Type 0} → NatType → List (Event ID) → List (ID × NatInfo)
accepted ty [] = []
accepted ty (ev ∷ evs) = accepted_one ty ev ++ accepted ty evs

abbrev pub taken : {ID : Type 0} → NatType → List (Event ID) → List (ID × NatInfo)
taken ty [] = []
taken ty (ev ∷ evs) = taken_one ty ev ++ taken ty evs

module _ {ID : Type 0} (Q : QueueApi (ID × NatInfo)) where
  abbrev pub call : Call ID → Queues Q → Event ID × Queues Q
  call (put id nat) qs = let (result, qs') = punch Q id nat qs in (was_put (id, nat) result, qs')
  call (take NatType.cone t) qs =
      let (got, qs') = next_cone Q t qs in (was_taken NatType.cone got, qs')
  call (take NatType.symmetric t) qs =
      let (got, qs') = next_symmetric Q t qs in (was_taken NatType.symmetric got, qs')

  abbrev pub calls : List (Call ID) → Queues Q → List (Event ID) × Queues Q
  calls [] qs = ([], qs)
  calls (c ∷ cs) qs =
      let (ev, qs') = call c qs in let (evs, qs'') = calls cs qs' in (ev ∷ evs, qs'')

  abbrev pub waiting : NatType → Queues Q → List (ID × NatInfo)
  waiting NatType.cone qs = Q.items qs.cone
  waiting NatType.symmetric qs = Q.items qs.symmetric

  -- What a call leaves of a type: what waited and what came are what went and what waits.
  abbrev Balanced : NatType → Queues Q → Event ID × Queues Q → Type 0
  Balanced ty qs (ev, qs') = waiting ty qs ++ accepted_one ty ev ≡ taken_one ty ev ++ waiting ty qs'

  of_type-nil : {A : Type 0} (ty from : NatType) → of_type {A = A} ty from [] ≡ []
  of_type-nil NatType.cone NatType.cone = refl
  of_type-nil NatType.cone NatType.symmetric = refl
  of_type-nil NatType.symmetric NatType.cone = refl
  of_type-nil NatType.symmetric NatType.symmetric = refl

  accepted_one-result_of :
      (ty : NatType) (item : ID × NatInfo) (o : TrySent)
      → accepted_one ty (was_put item (result_of o))
        ≡ of_type ty (item.1).nat_type (sent_item o item)
  accepted_one-result_of ty item sent = refl
  accepted_one-result_of ty item full = sym (of_type-nil ty (item.1).nat_type)
  accepted_one-result_of ty item disconnected = sym (of_type-nil ty (item.1).nat_type)

  waiting-send_by_type :
      (ty from : NatType) (item : ID × NatInfo) (qs : Queues Q)
      → let (o, qs') = send_by_type Q from item qs in
        waiting ty qs ++ of_type ty from (sent_item o item) ≡ waiting ty qs'
  waiting-send_by_type NatType.cone NatType.cone item qs = sym (Q.items-try_send qs.cone item)
  waiting-send_by_type NatType.cone NatType.symmetric item qs = append-nil (Q.items qs.cone)
  waiting-send_by_type NatType.symmetric NatType.cone item qs = append-nil (Q.items qs.symmetric)
  waiting-send_by_type NatType.symmetric NatType.symmetric item qs =
      sym (Q.items-try_send qs.symmetric item)

  items_of : Result (ID × NatInfo) → List (ID × NatInfo)
  items_of (ok item) = item ∷ []
  items_of (err x) = []

  items-next_item :
      (q : Q.Queue) (t : Option ℕ)
      → let (got, q') = next_item Q q t in Q.items q ≡ items_of got ++ Q.items q'
  unfolding next_item items_of
  items-next_item q none = Q.items-recv q ∙ ap (λ xs. xs ++ Q.items (Q.recv q).1) (go (Q.recv q).0)
    where
      go : (o : Option (ID × NatInfo)) → some_item o ≡ items_of (on_recv Q o)
      go none = refl
      go (some item) = refl
  items-next_item q (some t) =
      Q.items-recv_timeout t q
      ∙ ap (λ xs. xs ++ Q.items (Q.recv_timeout t q).1) (go (Q.recv_timeout t q).0)
    where
      go : (o : Recv (ID × NatInfo)) → received_item o ≡ items_of (on_recv_timeout Q o)
      go (received item) = refl
      go timeout = refl
      go hung_up = refl

  taken_one-items_of :
      (ty from : NatType) (got : Result (ID × NatInfo))
      → taken_one ty (was_taken from got) ≡ of_type ty from (items_of got)
  unfolding items_of
  taken_one-items_of ty from (ok item) = refl
  taken_one-items_of ty from (err x) = sym (of_type-nil ty from)

  call-Balanced : (ty : NatType) (c : Call ID) (qs : Queues Q) → Balanced ty qs (call c qs)
  unfolding punch next_cone next_symmetric
  call-Balanced ty (put id nat) qs =
      ap (λ xs. waiting ty qs ++ xs)
        (accepted_one-result_of ty (id, nat) (send_by_type Q nat.nat_type (id, nat) qs).0)
      ∙ waiting-send_by_type ty nat.nat_type (id, nat) qs
  call-Balanced NatType.cone (take NatType.cone t) qs =
      append-nil (Q.items qs.cone)
      ∙ items-next_item qs.cone t
      ∙ ap (λ xs. xs ++ Q.items (next_item Q qs.cone t).1)
          (sym (taken_one-items_of NatType.cone NatType.cone (next_item Q qs.cone t).0))
  call-Balanced NatType.symmetric (take NatType.symmetric t) qs =
      append-nil (Q.items qs.symmetric)
      ∙ items-next_item qs.symmetric t
      ∙ ap (λ xs. xs ++ Q.items (next_item Q qs.symmetric t).1)
          (sym
            (taken_one-items_of NatType.symmetric NatType.symmetric (next_item Q qs.symmetric t).0))
  call-Balanced NatType.cone (take NatType.symmetric t) qs =
      append-nil (Q.items qs.cone)
      ∙ ap (λ xs. xs ++ Q.items qs.cone)
          (sym (taken_one-items_of NatType.cone NatType.symmetric (next_item Q qs.symmetric t).0))
  call-Balanced NatType.symmetric (take NatType.cone t) qs =
      append-nil (Q.items qs.symmetric)
      ∙ ap (λ xs. xs ++ Q.items qs.symmetric)
          (sym (taken_one-items_of NatType.symmetric NatType.cone (next_item Q qs.cone t).0))

  calls-balance :
      (ty : NatType) (cs : List (Call ID)) (qs : Queues Q)
      → let (evs, qs') = calls cs qs in
        waiting ty qs ++ accepted ty evs ≡ taken ty evs ++ waiting ty qs'
  calls-balance ty [] qs = append-nil (waiting ty qs)
  calls-balance ty (c ∷ cs) qs =
      let (ev, qs') = call c qs in
      let (evs, qs'') = calls cs qs' in
      sym (append_assoc (waiting ty qs) (accepted_one ty ev) (accepted ty evs))
      ∙ ap (λ xs. xs ++ accepted ty evs) (call-Balanced ty c qs)
      ∙ append_assoc (taken_one ty ev) (waiting ty qs') (accepted ty evs)
      ∙ ap (λ xs. taken_one ty ev ++ xs) (calls-balance ty cs qs')
      ∙ sym (append_assoc (taken_one ty ev) (taken ty evs) (waiting ty qs''))

  -- No more waits than a queue of one place holds.
  abbrev Fits : Q.Queue → Type 0
  Fits q = (Q.room q ≡ 1) × (length (Q.items q) ≤ 1)

  Fits-try_send : (q : Q.Queue) (item : ID × NatInfo) → Fits q → Fits (Q.try_send q item).1
  Fits-try_send q item (r, l) = (
    Q.room-try_send q item ∙ r,
    go (Q.try_send q item).0 (Q.items-try_send q item) (Q.sent_room q item),
  )
    where
      go :
          (o : TrySent)
          → Q.items (Q.try_send q item).1 ≡ Q.items q ++ sent_item o item
          → (o ≡ sent → length (Q.items q) < Q.room q)
          → length (Q.items (Q.try_send q item).1) ≤ 1
      go sent e more = omega (arith, ap length e, length-append (Q.items q) (item ∷ []), more refl)
      go full e more = omega (arith, ap length e, length-append (Q.items q) [])
      go disconnected e more = omega (arith, ap length e, length-append (Q.items q) [])

  room-next_item : (q : Q.Queue) (t : Option ℕ) → Q.room (next_item Q q t).1 ≡ Q.room q
  unfolding next_item
  room-next_item q none = Q.room-recv q
  room-next_item q (some t) = Q.room-recv_timeout t q

  Fits-next_item : (q : Q.Queue) (t : Option ℕ) → Fits q → Fits (next_item Q q t).1
  Fits-next_item q t (r, l) = (
    room-next_item q t ∙ r,
    omega (
      arith,
      ap length (items-next_item q t),
      length-append (items_of (next_item Q q t).0) (Q.items (next_item Q q t).1),
    ),
  )

  abbrev BothFit : Queues Q → Type 0
  BothFit qs = Fits qs.cone × Fits qs.symmetric

  call-BothFit : (c : Call ID) (qs : Queues Q) → BothFit qs → BothFit (call c qs).1
  unfolding punch next_cone next_symmetric
  call-BothFit (put id nat) qs (c, s) = go nat.nat_type
    where
      go : (from : NatType) → BothFit (send_by_type Q from (id, nat) qs).1
      go NatType.cone = (Fits-try_send qs.cone (id, nat) c, s)
      go NatType.symmetric = (c, Fits-try_send qs.symmetric (id, nat) s)
  call-BothFit (take NatType.cone t) qs (c, s) = (Fits-next_item qs.cone t c, s)
  call-BothFit (take NatType.symmetric t) qs (c, s) = (c, Fits-next_item qs.symmetric t s)

  calls-BothFit : (cs : List (Call ID)) (qs : Queues Q) → BothFit qs → BothFit (calls cs qs).1
  calls-BothFit [] qs h = h
  calls-BothFit (c ∷ cs) qs h = calls-BothFit cs (call c qs).1 (call-BothFit c qs h)

  fits-waiting : (ty : NatType) (qs : Queues Q) → BothFit qs → length (waiting ty qs) ≤ 1
  fits-waiting NatType.cone qs h = h.0.1
  fits-waiting NatType.symmetric qs h = h.1.1

  pub waiting-boot_queues : (ty : NatType) → waiting ty (boot_queues Q) ≡ []
  waiting-boot_queues NatType.cone = Q.items-bounded 1
  waiting-boot_queues NatType.symmetric = Q.items-bounded 1

  boot-Fits : Fits (Q.bounded 1)
  boot-Fits = (Q.room-bounded 1, omega (arith, ap length (Q.items-bounded 1)))

  -- After any calls on the queues that `Boot::new` makes: the peers of a NAT type for which
  -- `punch` succeeded, in the order of the calls, are those that `next_` of that type has returned,
  -- followed by those that wait, of which there is one at most. So none is lost, doubled, passed
  -- by another, or returned for the other type.
  pub punches_in_order :
      (ty : NatType) (cs : List (Call ID))
      → let (evs, qs) = calls cs (boot_queues Q) in
        (accepted ty evs ≡ taken ty evs ++ waiting ty qs) × (length (waiting ty qs) ≤ 1)
  punches_in_order ty cs = (
    ap (λ xs. xs ++ accepted ty (calls cs (boot_queues Q)).0) (sym (waiting-boot_queues ty))
        ∙ calls-balance ty cs (boot_queues Q),
    fits-waiting ty (calls cs (boot_queues Q)).1
        (calls-BothFit cs (boot_queues Q) (boot-Fits, boot-Fits)),
  )
