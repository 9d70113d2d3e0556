-- ===== src/Server/Heard.antt =====
-- What the server has heard, and the logs that this explains.
use p2p_channel.Base.{
  ℕ, ◌≡◌, Bool, ◌&&◌, Option, none, some, List, [], ◌∷◌, number_eq, if◌then◌else◌, take, length,
  ltb,
}
use p2p_channel.Base.MapApi.{MapApi, lookup}
use p2p_channel.Net.{SocketAddr, addr_eq}
use p2p_channel.Ports.{slice}
use p2p_channel.Wire.{introduction, bytes_to_u32, ◌>>=◌}
use p2p_channel.Server.{Log, starts, fill, Server}

-- The two numbers of a report in the buffer.
abbrev pub report_of : List ℕ → Option (ℕ × ℕ)
report_of buf = (slice buf 1 5 >>= bytes_to_u32) >>= λ id.
    (slice buf 5 9 >>= bytes_to_u32) >>= λ peer_id. some (id, peer_id)

abbrev pub add_heard : Option (ℕ × ℕ) → SocketAddr → List (ℕ × SocketAddr) → List (ℕ × SocketAddr)
add_heard none from seen = seen
add_heard (some (id, peer_id)) from seen = (id, from) ∷ seen

-- The ids that were reported, with the addresses of the reports, the last first.
abbrev pub heard :
    List (List ℕ × SocketAddr) → List ℕ → List (ℕ × SocketAddr) → List (ℕ × SocketAddr)
heard [] buf seen = seen
heard ((datagram, from) ∷ more) buf seen =
    let buf' = fill datagram buf in
    heard more buf' (
      if ltb 0 (length (take 1500 datagram)) && starts buf' 253
      then add_heard (report_of buf') from seen
      else seen)

module _ (M : MapApi ℕ SocketAddr) (show_v6 : SocketAddr → List ℕ)
    (accepts : Log → List ℕ → SocketAddr → Bool) where
  abbrev pub S : Type 0
  S = Server M show_v6 accepts

  -- The logs of a server that has heard certain reports, the last first: each is confirmed to the
  -- address it came from, heartbeats are answered, and introductions go out in pairs, each of the
  -- two peers to the address that the other one has reported from last.
  pub data Trace : List (ℕ × SocketAddr) → Log → Type 0 where
    nothing : Trace [] []
    reported :
        {seen : List (ℕ × SocketAddr)} {log : Log} (id : ℕ) (from : SocketAddr)
        → Trace seen log
        → Trace ((id, from) ∷ seen) ((252 ∷ [], from) ∷ log)
    answered :
        {seen : List (ℕ × SocketAddr)} {log : Log} (from : SocketAddr)
        → Trace seen log
        → Trace seen ((255 ∷ [], from) ∷ log)
    introduced :
        {seen : List (ℕ × SocketAddr)} {log : Log} (id peer_id : ℕ) (from v : SocketAddr)
        → Trace seen log
        → lookup seen id ≡ some from
        → lookup seen peer_id ≡ some v
        → Trace seen
            ((introduction show_v6 id from, v) ∷ (introduction show_v6 peer_id v, from) ∷ log)

  -- What holds of a state with a buffer, of the reports that were heard.
  pub record Explains (buf : List ℕ) (seen : List (ℕ × SocketAddr)) (s : S) : Type 0 where
    pub same_buf : s.buf ≡ buf
    pub trace : Trace seen s.sent
    pub known : (id : ℕ) (v : SocketAddr) → M.get s.map id ≡ some v → lookup seen id ≡ some v
