-- ===== src/Receive/Closing.antt =====
-- How `recv_from` ends on a closed channel.
use p2p_channel.Base.{ℕ, ◌≡◌, true, Option, none, some, List, ◌∷◌, ok, Eq, number_eq, contains}
use p2p_channel.Route.{Status, change_token_index}
use p2p_channel.RouteTable.{Store}
use p2p_channel.Os.{Os, WorldOf}
use p2p_channel.Reactor.{Reactor}
use p2p_channel.Channel.{Channel}
use p2p_channel.Receive.{Step, recv_from}

-- What is relied on once the channel is closed: no thread opens it again while a call of the
-- operating system lasts, and a poll that ends well reports the waker, or nothing at all.
pub record Woken {O : Os} (R : Reactor O) (poll : R.Poll) (timeout : Option ℕ) : Type 0 where
  pub recv_keeps :
      (udp : O.Socket) (w : WorldOf O)
      → w.status ≡ Status.close
      → ((R.recv_from udp w).1).status ≡ Status.close
  pub poll_keeps :
      (w : WorldOf O) → w.status ≡ Status.close → ((R.poll poll timeout w).1).status ≡ Status.close
  pub reports :
      (w w' : WorldOf O) (token : ℕ) (tokens : List ℕ)
      → w.status ≡ Status.close
      → R.poll poll timeout w ≡ (ok (token ∷ tokens), w')
      → contains (token ∷ tokens) change_token_index ≡ true

module _ {O : Os} (R : Reactor O) {ID : Type 0} ⦃e : Eq ID⦄ (S : Store ID) (c : Channel R)
    (timeout : Option ℕ) (W : Woken R c.poll timeout) where
  -- A step that returns, or goes on with the channel closed.
  abbrev StaysClosed : Step R S → Type 0
  StaysClosed (some got, s) = Unit {0}
  StaysClosed (none, s) = s.world.status ≡ Status.close

  abbrev Returns : Step R S → Type 0
  Returns (some got, s) = Unit {0}
  Returns (none, s) = ⊥
