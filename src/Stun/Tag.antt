-- ===== src/Stun/Tag.antt =====
-- The tag in the numbers of the requests that a peer sends for itself: `send_stun_request` and
-- `recv_stun_response` of src/stun/mod.rs.
use Prim.Native.Nat.{bit_or}
use p2p_channel.Base.{
  ℕ, ◌^◌, ◌<◌, arith, Bool, true, false, ◌≡◌, ◌∙◌, ap, refl, some, List, nat_beq,
}
use p2p_channel.Base.Bits.{bit_and-bit_or, bit_or_bound}
use p2p_channel.Stun.{Stun, tag, is_ours, first_mapped, recv_stun_response, send_stun_request}

-- A number of at most 96 bits is read back from the request that carries it.
abbrev pub TidRead : {World : Type 0} → Stun World → Type 0
TidRead S = (i p : Bool) (t : ℕ) → t < 2 ^ 96 → S.tid_of (S.request i p t) ≡ some t

own-is_ours : (id : ℕ) → is_ours (some (bit_or id tag)) ≡ true
own-is_ours id = ap (λ t. nat_beq t tag) (bit_and-bit_or id tag) ∙ refl

module _ {World : Type 0} (S : Stun World) where
  -- Let the library read back the number of at most 96 bits that it puts into a request. A reply
  -- that carries the number of a request of `send_stun_request`, with the random number of 64
  -- bits, passes the test of `recv_stun_response`, so that the first mapped address in it is
  -- returned, if there is one.
  pub recv_stun_response-send_stun_request :
      (read : TidRead S) (id : ℕ) (b : id < 2 ^ 64) (reply : List ℕ)
      → S.tid_of reply ≡ S.tid_of (send_stun_request S id)
      → recv_stun_response S reply ≡ first_mapped (S.attrs_of reply)
  unfolding send_stun_request recv_stun_response
  recv_stun_response-send_stun_request read id b reply h =
      let own =
        h ∙ read false false (bit_or id tag) (bit_or_bound 96 id tag (omega arith) (omega arith)) in
      rw own (rw (own-is_ours id) refl)
