-- ===== src/Os.antt =====
-- What the code asks of the operating system when it sends: `UdpSocket::send_to` of `std::net`,
-- `thread::yield_now` and `thread::sleep`. During such a call other threads may change the cells
-- that the channel and its senders share, so a call takes and returns the whole world.
use p2p_channel.Base.{ℕ, List, Result, ok, err, ◌≡◌, refl}
use p2p_channel.Net.{SocketAddr}
use p2p_channel.Route.{Status}

-- `status` and `share_info` are the shared cells; `kernel` is everything else.
pub record World (Socket Kernel : Type 0) : Type 0 where
  pub status : Status
  pub share_info : List Socket
  pub kernel : Kernel

pub record Os : Type 1 where
  pub Socket : Type 0
  pub Kernel : Type 0
  pub send_to : Socket → List ℕ → SocketAddr → World Socket Kernel → Result ℕ × World Socket Kernel
  pub yield_now : World Socket Kernel → World Socket Kernel
  pub sleep_ms : ℕ → World Socket Kernel → World Socket Kernel

abbrev pub WorldOf : Os → Type 0
WorldOf O = World O.Socket O.Kernel

-- An operation that may fail.
abbrev pub Io : Os → Type 0 → Type 0
Io O A = WorldOf O → Result A × WorldOf O

-- `?`: go on with the value, or return the error.
abbrev pub continue : {W A B : Type 0} → Result A × W → (A → W → Result B × W) → Result B × W
continue (ok a, w) f = f a w
continue (err e, w) f = (err e, w)

infixl 5 ◌>>=◌
abbrev pub ◌>>=◌ : {W A B : Type 0} → (W → Result A × W) → (A → W → Result B × W) → W → Result B × W
◌>>=◌ m f w = continue (m w) f

pub continue_assoc :
    {W A B C : Type 0} (o : Result A × W) (f : A → W → Result B × W) (g : B → W → Result C × W)
    → continue (continue o f) g ≡ continue o (λ a w. continue (f a w) g)
continue_assoc (ok a, w) f g = refl
continue_assoc (err e, w) f g = refl

pub continue_ext :
    {W A B : Type 0} (o : Result A × W) (f g : A → W → Result B × W)
    → ((a : A) (w : W) → f a w ≡ g a w)
    → continue o f ≡ continue o g
continue_ext (ok a, w) f g h = h a w
continue_ext (err e, w) f g h = refl
