-- ===== src/Inproc/Steps.antt =====
-- The steps of callers and timers on packet connections, and what holds between them.
use missinggo.Base.{
  ℕ, ◌≤◌, ◌≡◌, false, ◌||◌, List, [], ◌∷◌, ◌++◌, Option, none, some, if◌then◌else◌, put, take,
}
use missinggo.Base.Int.{ℤ, int_eq}
use missinggo.Base.Dict.{lookup}
use missinggo.Inproc.{
  Addr, Packet, CondDeadline, PacketConn, World, AddrText, resolve_inproc_addr, listen_at, close,
  write_to, read_from, ReadResult, got, failed, waits,
}

-- What a read with a buffer of `room` bytes returned.
pub record Reading : Type 0 where
  pub room : ℕ
  pub bytes : List ℕ
  pub addr : Addr

-- What was sent to each connection, and what the reads of each returned.
pub record Log : Type 0 where
  pub sent : ℕ → List Packet
  pub read : ℕ → List Reading

-- The connection that a write reaches, if it is not refused.
abbrev pub reaches : PacketConn → ℤ → World → Option ℕ
reaches me to w = if me.closed || me.write_deadline.exceeded then none else lookup to w.conns

abbrev pub log_write : Option ℕ → Packet → Log → Log
log_write none x log = log
log_write (some d) x log = record log { sent = put d (log.sent d ++ x ∷ []) log.sent }

abbrev pub log_read : ℕ → ℕ → ReadResult → Log → Log
log_read c room (got bytes addr) log =
    let r : Reading = record { room = room; bytes = bytes; addr = addr } in
    record log { read = put c (log.read c ++ r ∷ []) log.read }
log_read c room (failed e) log = log
log_read c room waits log = log

-- A connection whose deadlines only have changed.
abbrev pub retimed : PacketConn → CondDeadline → CondDeadline → PacketConn
retimed me r v = record me { read_deadline = r; write_deadline = v }

-- The steps of the callers and timers. A connection is closed once.
pub data Step (w : World) (log : Log) : World → Log → Type 0 where
  do_resolve : (a : AddrText) → Step w log (resolve_inproc_addr a w).1 log
  do_listen : (a : Addr) (c : ℕ) (w' : World) → listen_at a w ≡ some (c, w') → Step w log w' log
  do_close :
      (c : ℕ) (me : PacketConn)
      → w.store c ≡ some me
      → me.closed ≡ false
      → Step w log (close c me w) log
  do_write :
      (c : ℕ) (me : PacketConn) (b : List ℕ) (to : ℤ)
      → w.store c ≡ some me
      → Step w log
          (write_to me b to w).0
          (log_write (reaches me to w) (record { bytes = b; addr = me.addr }) log)
  do_read :
      (c : ℕ) (me : PacketConn) (room : ℕ)
      → w.store c ≡ some me
      → Step w log (read_from c me room w).0 (log_read c room (read_from c me room w).1 log)
  retime :
      (c : ℕ) (me : PacketConn) (r v : CondDeadline)
      → w.store c ≡ some me
      → Step w log (record w { store = put c (some (retimed me r v)) w.store }) log

-- Each reading is the start of the packet that was sent in its turn, with the address that it was
-- sent from: all of the bytes, or as many as there was room for. The packets after those wait.
abbrev pub Delivered : List Reading → List Packet → List Packet → Type 0
Delivered [] waiting sent = sent ≡ waiting
Delivered (r ∷ rs) waiting [] = ⊥
Delivered (r ∷ rs) waiting (x ∷ xs) =
    (r.bytes ≡ take r.room x.bytes) × (r.addr ≡ x.addr) × Delivered rs waiting xs

pub record Inv (w : World) (log : Log) : Type 0 where
  pub registered :
      (a : ℤ) (c : ℕ)
      → lookup a w.conns ≡ some c
      → (me : PacketConn) × (w.store c ≡ some me) × (me.closed ≡ false) × (me.addr ≡ a)
  pub open_at :
      (c : ℕ) (me : PacketConn)
      → w.store c ≡ some me
      → me.closed ≡ false
      → lookup me.addr w.conns ≡ some c
  pub queued :
      (c : ℕ) (me : PacketConn) → w.store c ≡ some me → Delivered (log.read c) me.reads (log.sent c)
  pub absent : (c : ℕ) → w.fresh ≤ c → (w.store c ≡ none)
  pub unlogged : (c : ℕ) → w.store c ≡ none → (log.sent c ≡ []) × (log.read c ≡ [])

abbrev pub new_log : Log
new_log = record { sent = λ c. []; read = λ c. [] }
