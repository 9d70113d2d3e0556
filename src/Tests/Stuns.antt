-- ===== src/Tests/Stuns.antt =====
-- NAT detection.
use Prim.Native.Nat.{bit_or}
use native.Mathlib.Omega.{arith}
use mathlib.Core.Option.{Option}
use p2p_channel.Base.{ℕ, ◌+◌, ◌≡◌, refl, none, some, List, [], ◌∷◌, number_eq, ok}
use p2p_channel.Net.{SocketAddr, addr_v4, addr_eq}
use p2p_channel.Punch.{symmetric, cone}
use p2p_channel.Stun.{
  stun_v4, Attr, mapped_address, changed_address, xor_mapped_address, other_attr, first_mapped,
  nat_of_addrs, port_summary, insert_set, Stun,
}
use p2p_channel.Base.{Result}
use p2p_channel.Stun.{tag, recv_stun_response, send_stun_request}
use p2p_channel.Stun.Tag.{recv_stun_response-send_stun_request}
use p2p_channel.Stun.{Nat, stun_test_nat}
use p2p_channel.Stun.Merge.{Merged, stun_test_nat-Merged}
use p2p_channel.Stun.Summary.{Summarises, nat_of_addrs-Summarises}

abbrev attrs : List Attr
attrs =
    other_attr
    ∷ changed_address (stun_v4 5 50)
    ∷ xor_mapped_address (stun_v4 6 60)
    ∷ mapped_address (stun_v4 7 70)
    ∷ []

abbrev addrs : List SocketAddr
addrs = addr_v4 6 60 ∷ addr_v4 6 64 ∷ addr_v4 8 61 ∷ []

summary_run : nat_of_addrs addrs ≡ (symmetric, 6 ∷ 8 ∷ [], 4)
unfolding nat_of_addrs port_summary insert_set
summary_run = refl

nat_of_addrs-Summarises_example : Summarises addrs (nat_of_addrs addrs)
nat_of_addrs-Summarises_example = nat_of_addrs-Summarises addrs

-- The first request is answered from one mapped port and the second from another.
abbrev replies : ℕ → List ℕ
replies n = n ∷ []

abbrev attrs_of_reply : List ℕ → List Attr
attrs_of_reply [] = []
attrs_of_reply (n ∷ ns) = mapped_address (stun_v4 6 (60 + n)) ∷ changed_address (stun_v4 5 50) ∷ []

abbrev stun : Stun ℕ
stun = record {
  request = λ i p t. t ∷ [];
  attrs_of = attrs_of_reply;
  tid_of = λ b. none;
  connect_server = λ s w. (ok tt, w);
  connect_addr = λ a w. (ok tt, w);
  send = λ b w. (ok 28, w);
  recv = λ w. (ok (replies w), w + 1);
  next_u64 = λ w. (w, w);
}

abbrev pub detections : List (Result Nat)
detections = ok (symmetric, 6 ∷ [], 4) ∷ ok (cone, 6 ∷ 8 ∷ [], 7) ∷ []

stun_test_nat-Merged_example : Merged detections (stun_test_nat detections (cone, [], 0))
stun_test_nat-Merged_example = stun_test_nat-Merged detections

-- A message is its number, and in a reply a port behind it.
abbrev tid_of_reply : List ℕ → Option ℕ
tid_of_reply [] = none
tid_of_reply (t ∷ bytes) = some t

abbrev attrs_behind : List ℕ → List Attr
attrs_behind [] = []
attrs_behind (t ∷ []) = []
attrs_behind (t ∷ port ∷ bytes) = other_attr ∷ xor_mapped_address (stun_v4 6 port) ∷ []

abbrev numbered : Stun ℕ
numbered = record {
  request = λ i p t. t ∷ [];
  attrs_of = attrs_behind;
  tid_of = tid_of_reply;
  connect_server = λ s w. (ok tt, w);
  connect_addr = λ a w. (ok tt, w);
  send = λ b w. (ok 28, w);
  recv = λ w. (ok (w ∷ []), w + 1);
  next_u64 = λ w. (w, w);
}

abbrev own_reply : List ℕ
own_reply = bit_or 5 tag ∷ 60 ∷ []

recv_stun_response-send_stun_request_example :
    recv_stun_response numbered own_reply ≡ first_mapped (attrs_behind own_reply)
unfolding send_stun_request
recv_stun_response-send_stun_request_example =
    recv_stun_response-send_stun_request numbered (λ i p t b. refl) 5 (omega arith) own_reply refl

-- The reply to another's request, without the tag.
foreign_run : recv_stun_response numbered (5 ∷ 60 ∷ []) ≡ none
unfolding recv_stun_response
foreign_run = refl
