-- ===== src/Peer/Threads/Closing.antt =====
-- The threads of the example peer after a close.
use p2p_channel.Base.{ok}
use p2p_channel.Reactor.{Reactor}
use p2p_channel.Channel.{Channel, Group, close}
use p2p_channel.Channel.Nat.{Command, commands}
use p2p_channel.Base.{List, ok}
use p2p_channel.Os.{Os, WorldOf}
use p2p_channel.Idle.{Idle}
use p2p_channel.Punch.{Punch}

-- A close, and the commands after it.
abbrev pub closing :
    {O : Os} (R : Reactor O) → Group R → List (Command × Group R) → WorldOf O → WorldOf O
closing R g cs w = commands R cs (close R g w).1
