-- ===== src/Server/Meeting.antt =====
-- Two peers that ask for each other are told where the other one is.
use p2p_channel.Base.{
  ℕ, ◌<◌, ◌≡◌, ◌≢◌, refl, Bool, true, ◌||◌, none, some, List, [], ◌∷◌, arith, nat_beq_iff,
  number_eq, ◌==◌, if◌then◌else◌,
}
use p2p_channel.Base.MapApi.{MapApi}
use p2p_channel.Net.{SocketAddr}
use p2p_channel.Wire.{introduction, report_bytes}
use p2p_channel.Server.{Log, fill, Server, send, report, serve}
use p2p_channel.Server.Steps.{on_datagram-report_bytes, on_datagram_stale}

module _ (M : MapApi ℕ SocketAddr) (show_v6 : SocketAddr → List ℕ)
    (accepts : Log → List ℕ → SocketAddr → Bool)
    (takes : (l : Log) (b : List ℕ) (to : SocketAddr) → accepts l b to ≡ true) where
  abbrev S : Type 0
  S = Server M show_v6 accepts

  -- Sending, if the system takes every datagram.
  abbrev pub sending : List ℕ → SocketAddr → S → S
  sending bytes to s = record s { sent = (bytes, to) ∷ s.sent }

  send_lem :
      (bytes : List ℕ) (to : SocketAddr) (s : S)
      → send M show_v6 accepts bytes to s ≡ some (sending bytes to s)
  send_lem bytes to s = rw (takes s.sent bytes to)

  -- The report of a peer that waits for another one.
  abbrev pub waiting : ℕ → SocketAddr → S → S
  waiting id from s = sending (252 ∷ []) from (record s { map = (M.insert s.map id from).1 })

  -- The report of a peer whose other one waits at an address.
  abbrev pub meeting : ℕ → ℕ → SocketAddr → SocketAddr → S → S
  meeting id peer_id from v s = sending (introduction show_v6 id from) v (
      sending (introduction show_v6 peer_id v) from (
        sending (252 ∷ []) from
          (record s { map = (M.remove (M.remove (M.insert s.map id from).1 peer_id).1 id).1 })))

  report_waits :
      (id peer_id : ℕ) (from : SocketAddr) (s : S)
      → M.get (M.insert s.map id from).1 peer_id ≡ none
      → report M show_v6 accepts id peer_id from s ≡ some (waiting id from s)
  unfolding report
  report_waits id peer_id from s h = rw (send_lem (252 ∷ []) from s, h)

  report_meets :
      (id peer_id : ℕ) (from v : SocketAddr) (s : S)
      → M.get (M.insert s.map id from).1 peer_id ≡ some v
      → report M show_v6 accepts id peer_id from s ≡ some (meeting id peer_id from v s)
  unfolding report
  report_meets id peer_id from v s h = rw (
    send_lem (252 ∷ []) from s,
    h,
    send_lem (introduction show_v6 peer_id v) from _,
    send_lem (introduction show_v6 id from) v _,
  )

  -- What the two reports leave: each peer is told its other one's address, and neither waits.
  pub record Met (a b : ℕ) (x y : SocketAddr) (s s' : S) : Type 0 where
    pub told :
        s'.sent
        ≡ (introduction show_v6 b y, x)
          ∷ (introduction show_v6 a x, y)
          ∷ (252 ∷ [], y)
          ∷ (252 ∷ [], x)
          ∷ s.sent
    pub waits :
        (id : ℕ) → M.get s'.map id ≡ (if (a == id) || (b == id) then none else M.get s.map id)

  get_met :
      (m : M.Map) (a b : ℕ) (x y : SocketAddr) (id : ℕ)
      → M.get (M.remove (M.remove (M.insert (M.insert m a x).1 b y).1 a).1 b).1 id
        ≡ (if (a == id) || (b == id) then none else M.get m id)
  get_met m a b x y id =
      let m2 = (M.insert (M.insert m a x).1 b y).1 in
      ground (
        arith,
        M.get-remove (M.remove m2 a).1 b id,
        M.get-remove m2 a id,
        M.get-insert (M.insert m a x).1 b y id,
        M.get-insert m a x id,
      )

  abbrev filled : ℕ → ℕ → S → S
  filled id peer_id s = record s { buf = fill (report_bytes id peer_id) s.buf }

  -- If the system takes every datagram, and a peer reports that asks for another one which does
  -- not wait, and that one reports from elsewhere and asks for the first: the server goes on, it
  -- has confirmed both reports and told each of the two the id and the address of the other one,
  -- and neither of them waits; nobody else is concerned.
  pub peers_meet :
      (a b : ℕ) (x y : SocketAddr) (s : S)
      → a < 4294967296
      → b < 4294967296
      → a ≢ b
      → M.get s.map b ≡ none
      → (s' : S) × (serve M show_v6 accepts ((report_bytes a b, x) ∷ (report_bytes b a, y) ∷ []) s
          ≡ some s')
        × Met a b x y s s'
  unfolding serve
  peers_meet a b x y s ha hb ne free =
      let s1 : S = waiting a x (filled a b s) in
      let first : M.get (M.insert s.map a x).1 b ≡ none =
        ground (arith, M.get-insert s.map a x b, nat_beq_iff a b) in
      let second : M.get (M.insert s1.map b y).1 a ≡ some x = ground (
        arith,
        M.get-insert s1.map b y a,
        M.get-insert s.map a x a,
        nat_beq_iff b a,
        nat_beq_iff a a,
      ) in
      (
        meeting b a y x (filled b a s1),
        rw (
          on_datagram-report_bytes M show_v6 accepts a b x s ha hb,
          report_waits a b x (filled a b s) first,
          on_datagram-report_bytes M show_v6 accepts b a y s1 hb ha,
          report_meets b a y x (filled b a s1) second,
        ),
        record { told = refl; waits = λ id. get_met s.map a b x y id },
      )

  -- The server reads its whole buffer, however short a datagram is: after the report of a peer
  -- that asks for one which does not wait, the one byte 253 from anywhere is taken for the same
  -- report again, and the server then takes the peer to be where that byte came from.
  pub stale_report :
      (a b : ℕ) (x z : SocketAddr) (s : S)
      → a < 4294967296
      → b < 4294967296
      → a ≢ b
      → M.get s.map b ≡ none
      → (s' : S) × (serve M show_v6 accepts ((report_bytes a b, x) ∷ (253 ∷ [], z) ∷ []) s
          ≡ some s')
        × (M.get s'.map a ≡ some z)
        × (s'.sent ≡ (252 ∷ [], z) ∷ (252 ∷ [], x) ∷ s.sent)
  unfolding serve
  stale_report a b x z s ha hb ne free =
      let s1 : S = waiting a x (filled a b s) in
      let first : M.get (M.insert s.map a x).1 b ≡ none =
        ground (arith, M.get-insert s.map a x b, nat_beq_iff a b) in
      let second : M.get (M.insert s1.map a z).1 b ≡ none =
        ground (arith, M.get-insert s1.map a z b, first, nat_beq_iff a b) in
      (
        waiting a z s1,
        rw (
          on_datagram-report_bytes M show_v6 accepts a b x s ha hb,
          report_waits a b x (filled a b s) first,
          on_datagram_stale M show_v6 accepts a b z s1 s.buf ha hb refl,
          report_waits a b z s1 second,
        ),
        ground (arith, M.get-insert s1.map a z a, nat_beq_iff a a),
        refl,
      )
