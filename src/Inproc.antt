-- ===== src/Inproc.antt =====
-- inproc/inproc.go: packet connections within one process. A connection is shared by pointer, so
-- connections live in a store. An operation is a section under the package's mutex; `ReadFrom` waits
-- by leaving it. A timer that fires does so in two steps, since its callback waits for the mutex.
pub mod Steps
pub mod Kept
pub mod Delivery
mod Tests
use missinggo.Base.{
  ℕ, suc, ◌≡◌, Bool, true, false, List, [], ◌∷◌, ◌++◌, Option, none, some, ◌==◌, if◌then◌else◌, put,
  length, take, not,
}
use missinggo.Base.Int.{ℤ, pos, ◌+ℤ◌, beq_ℤ, int_eq}
use missinggo.Base.Dict.{lookup, insert, erase}

-- `Addr` is its port.
abbrev pub Addr : Type 0
Addr = ℤ

pub record Packet : Type 0 where
  pub bytes : List ℕ
  pub addr : Addr

-- `condDeadline`, with its timer and the callbacks that wait to run.
pub record CondDeadline : Type 0 where
  pub exceeded : Bool
  pub armed : Bool
  pub callbacks : ℕ

unfoldable pub new_cond_deadline : CondDeadline
new_cond_deadline = record { exceeded = false; armed = false; callbacks = 0 }

-- `setDeadline`, with whether the time is not the zero time.
unfoldable pub set_deadline : Bool → CondDeadline → CondDeadline
set_deadline some_time me = record me { exceeded = false; armed = some_time }

-- The timer fires; later its callback runs.
unfoldable pub fire : CondDeadline → CondDeadline
fire me = record me { armed = false; callbacks = suc me.callbacks }

unfoldable pub call_back : ℕ → CondDeadline → CondDeadline
call_back waiting me = record me { exceeded = true; callbacks = waiting }

pub record PacketConn : Type 0 where
  pub closed : Bool
  pub addr : Addr
  pub reads : List Packet
  pub read_deadline : CondDeadline
  pub write_deadline : CondDeadline

pub record World : Type 0 where
  pub next_port : ℤ
  pub conns : List (ℤ × ℕ)
  pub store : ℕ → Option PacketConn
  pub fresh : ℕ

unfoldable pub init : World
init = record { next_port = pos 1; conns = []; store = λ c. none; fresh = 0 }

unfoldable pub get_port : World → ℤ × World
get_port w = (w.next_port, record w { next_port = w.next_port +ℤ pos 1 })

-- The text of an address, once the standard library has split it and read the port.
pub data AddrText : Type 0 where
  empty : AddrText
  malformed : AddrText
  port : ℤ → AddrText

unfoldable pub resolve_inproc_addr : AddrText → World → Option Addr × World
unfolding get_port
resolve_inproc_addr empty w = let (p, w') = get_port w in (some p, w')
resolve_inproc_addr malformed w = (none, w)
resolve_inproc_addr (port p) w =
    if beq_ℤ p (pos 0) then (let (q, w') = get_port w in (some q, w')) else (some p, w)

abbrev pub new_packet_conn : Addr → PacketConn
new_packet_conn a = record {
  closed = false;
  addr = a;
  reads = [];
  read_deadline = new_cond_deadline;
  write_deadline = new_cond_deadline;
}

-- What `ListenPacket` does with the address that it resolved; `none` if it is in use.
unfoldable pub listen_at : Addr → World → Option (ℕ × World)
listen_at a w = elim (lookup a w.conns) [
  | some c ↦ none
  | none ↦ some (
    w.fresh,
    record w {
      conns = insert a w.fresh w.conns;
      store = put w.fresh (some (new_packet_conn a)) w.store;
      fresh = suc w.fresh;
    },
  )
]

-- `ListenPacket`; the mutex is free between the two sections.
unfoldable pub listen_packet : AddrText → World → Option ℕ × World
unfolding resolve_inproc_addr listen_at
listen_packet str w =
    let (addr, w') = resolve_inproc_addr str w in
    elim addr [
      | none ↦ (none, w')
      | some a ↦ elim (listen_at a w') [ none ↦ (none, w') | some (c, w'') ↦ (some c, w'') ]
    ]

-- The operations of the connection `me`, stored at `c`.
unfoldable pub close : ℕ → PacketConn → World → World
close c me w = record w {
  conns = erase me.addr w.conns;
  store = put c (some (record me { closed = true })) w.store;
}

pub data NetError : Type 0 where
  is_closed : NetError
  timed_out : NetError
  eof : NetError

-- What `WriteTo` appends to the connection at the port, if there is one.
abbrev pub enqueue : Packet → PacketConn → PacketConn
enqueue x to = record to { reads = to.reads ++ x ∷ [] }

-- The result is the number of bytes, or an error; `b` is copied.
unfoldable pub write_to : PacketConn → List ℕ → ℤ → World → World × (Option NetError × ℕ)
write_to me b to w =
    if me.closed
    then (w, (some is_closed, 0))
    else if me.write_deadline.exceeded
    then (w, (some timed_out, 0))
    else (elim (lookup to w.conns) [
      | none ↦ (w, (none, length b))
      | some d ↦ elim (w.store d) [
        | none ↦ (w, (none, length b))
        | some c ↦ (
          record w {
            store = put d (some (enqueue (record { bytes = b; addr = me.addr }) c)) w.store;
          },
          (none, length b),
        )
      ]
    ])

pub data ReadResult : Type 0 where
  -- the bytes that were copied, and the sender
  got : List ℕ → Addr → ReadResult
  failed : NetError → ReadResult
  waits : ReadResult

-- One round of the loop of `ReadFrom` into a buffer of `room` bytes.
unfoldable pub read_from : ℕ → PacketConn → ℕ → World → World × ReadResult
read_from c me room w = elim me.reads [
  | x ∷ rest ↦ (
    record w { store = put c (some (record me { reads = rest })) w.store },
    got (take room x.bytes) x.addr,
  )
  | [] ↦
      if me.closed
      then (w, failed eof)
      else if me.read_deadline.exceeded
      then (w, failed timed_out)
      else (w, waits)
]

-- `SetReadDeadline`, `SetWriteDeadline`; `SetDeadline` is the one after the other.
unfoldable pub set_read_deadline : Bool → PacketConn → PacketConn
set_read_deadline t me = record me { read_deadline = set_deadline t me.read_deadline }

unfoldable pub set_write_deadline : Bool → PacketConn → PacketConn
set_write_deadline t me = record me { write_deadline = set_deadline t me.write_deadline }
