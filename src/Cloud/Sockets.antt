-- ===== src/Cloud/Sockets.antt =====
-- The sockets that the three programs of src/cloud make, with the addresses that they bind and connect
-- to. Each is started with its own name and the names of its peers.
pub mod Meeting
use zmq_test.Common.{ℕ, Option, none, some, Bool, true, false, List, [], ◌∷◌, ◌++◌, map, replicate}

abbrev pub Name : Type 0
Name = List ℕ

pub data Kind : Type 0 where
  router : Kind
  pub_ : Kind
  sub : Kind
  pull : Kind
  push : Kind
  req : Kind
  rep : Kind

pub record Socket : Type 0 where
  pub kind : Kind
  pub identity : Option Name
  pub bound : List (List ℕ)
  pub connected : List (List ℕ)

-- "ipc://%s-cloud.ipc" and the others, for the part behind the dash.
abbrev pub ipc : List ℕ → Name → List ℕ
ipc part name =
    (b'i' ∷ b'p' ∷ b'c' ∷ b':' ∷ b'/' ∷ b'/' ∷ [])
    ++ name
    ++ b'-' ∷ part
    ++ b'.' ∷ b'i' ∷ b'p' ∷ b'c' ∷ []

abbrev pub localfe_ipc : Name → List ℕ
localfe_ipc = ipc (b'l' ∷ b'o' ∷ b'c' ∷ b'a' ∷ b'l' ∷ b'f' ∷ b'e' ∷ [])

abbrev pub localbe_ipc : Name → List ℕ
localbe_ipc = ipc (b'l' ∷ b'o' ∷ b'c' ∷ b'a' ∷ b'l' ∷ b'b' ∷ b'e' ∷ [])

abbrev pub monitor_ipc : Name → List ℕ
monitor_ipc = ipc (b'm' ∷ b'o' ∷ b'n' ∷ b'i' ∷ b't' ∷ b'o' ∷ b'r' ∷ [])

abbrev pub cloud_ipc : Name → List ℕ
cloud_ipc = ipc (b'c' ∷ b'l' ∷ b'o' ∷ b'u' ∷ b'd' ∷ [])

abbrev pub state_ipc : Name → List ℕ
state_ipc = ipc (b's' ∷ b't' ∷ b'a' ∷ b't' ∷ b'e' ∷ [])

abbrev pub binds : Kind → List ℕ → Socket
binds kind address = record { kind = kind; identity = none; bound = address ∷ []; connected = [] }

abbrev pub connects : Kind → List (List ℕ) → Socket
connects kind addresses = record { kind = kind; identity = none; bound = []; connected = addresses }

abbrev pub named : Name → Socket → Socket
named name s = record s { identity = some name }

abbrev pub nbr_clients : ℕ
nbr_clients = 10

-- stateflow.c
pub stateflow : Name → List Name → List Socket
stateflow self peers = binds pub_ (state_ipc self) ∷ connects sub (map state_ipc peers) ∷ []

-- lcflow.c, with the sockets of its workers and its clients
pub lcflow : Name → List Name → List Socket
lcflow self peers =
    named self (binds router (cloud_ipc self))
      ∷ named self (connects router (map cloud_ipc peers))
      ∷ binds router (localfe_ipc self)
      ∷ binds router (localbe_ipc self)
      ∷ replicate 3 (connects rep (localbe_ipc self ∷ []))
    ++ replicate nbr_clients (connects rep (localfe_ipc self ∷ []))

-- full.c, where a client has two
pub full : Name → List Name → List Socket
full self peers =
    binds router (localfe_ipc self)
      ∷ binds router (localbe_ipc self)
      ∷ named self (binds router (cloud_ipc self))
      ∷ named self (connects router (map cloud_ipc peers))
      ∷ binds sub (state_ipc self)
      ∷ connects sub (map state_ipc peers)
      ∷ binds pull (monitor_ipc self)
      ∷ replicate 5 (connects req (localbe_ipc self ∷ []))
    ++ replicate nbr_clients (connects req (localfe_ipc self ∷ []))
    ++ replicate nbr_clients (connects push (monitor_ipc self ∷ []))

-- The start of the three `main`, with the arguments behind the name of the program; without one they
-- only print how they are called.
pub main : (Name → List Name → List Socket) → List Name → Option (List Socket)
main program [] = none
main program (self ∷ peers) = some (program self peers)
