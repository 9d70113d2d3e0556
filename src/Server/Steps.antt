-- ===== src/Server/Steps.antt =====
-- What the server does with the messages that a peer sends.
use p2p_channel.Base.{ℕ, ◌<◌, ◌≡◌, Bool, some, List, [], ◌∷◌, arith, drop, number_eq}
use p2p_channel.Base.MapApi.{MapApi}
use p2p_channel.Net.{SocketAddr, addr_eq}
use p2p_channel.Ports.{slice}
use p2p_channel.Wire.{report_bytes, to_be_bytes}
use p2p_channel.Wire.Numbers.{bytes_to_u32-to_be_bytes}
use p2p_channel.Server.{Log, fill, Server, report, on_report, on_datagram}

slice_first :
    (x a b c d e f g h : ℕ) (rest : List ℕ)
    → slice (x ∷ a ∷ b ∷ c ∷ d ∷ e ∷ f ∷ g ∷ h ∷ rest) 1 5 ≡ some (a ∷ b ∷ c ∷ d ∷ [])
unfolding slice
slice_first x a b c d e f g h rest = ground arith

slice_second :
    (x a b c d e f g h : ℕ) (rest : List ℕ)
    → slice (x ∷ a ∷ b ∷ c ∷ d ∷ e ∷ f ∷ g ∷ h ∷ rest) 5 9 ≡ some (e ∷ f ∷ g ∷ h ∷ [])
unfolding slice
slice_second x a b c d e f g h rest = ground arith

module _ (M : MapApi ℕ SocketAddr) (show_v6 : SocketAddr → List ℕ)
    (accepts : Log → List ℕ → SocketAddr → Bool) where
  -- A report is read as it was written, whatever was in the buffer.
  pub on_datagram-report_bytes :
      (id peer_id : ℕ) (from : SocketAddr) (s : Server M show_v6 accepts)
      → id < 4294967296
      → peer_id < 4294967296
      → on_datagram M show_v6 accepts (report_bytes id peer_id) from s
        ≡ report M show_v6 accepts id peer_id from
            (record s { buf = fill (report_bytes id peer_id) s.buf })
  unfolding on_datagram on_report to_be_bytes fill
  on_datagram-report_bytes id peer_id from s h k = rw (
    slice_first 253 _ _ _ _ _ _ _ _ (drop 9 s.buf),
    bytes_to_u32-to_be_bytes id h,
    slice_second 253 _ _ _ _ _ _ _ _ (drop 9 s.buf),
    bytes_to_u32-to_be_bytes peer_id k,
  )

  -- A datagram of the one byte 253 is read as the report that came in before it.
  pub on_datagram_stale :
      (id peer_id : ℕ) (from : SocketAddr) (s : Server M show_v6 accepts) (before : List ℕ)
      → id < 4294967296
      → peer_id < 4294967296
      → s.buf ≡ fill (report_bytes id peer_id) before
      → on_datagram M show_v6 accepts (253 ∷ []) from s ≡ report M show_v6 accepts id peer_id from s
  unfolding on_datagram on_report to_be_bytes fill
  on_datagram_stale id peer_id from s before h k q = rw (
    q,
    slice_first 253 _ _ _ _ _ _ _ _ (drop 9 before),
    bytes_to_u32-to_be_bytes id h,
    slice_second 253 _ _ _ _ _ _ _ _ (drop 9 before),
    bytes_to_u32-to_be_bytes peer_id k,
  )
