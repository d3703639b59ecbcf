-- ===== src/Inproc/Delivery.antt =====
-- Runs of packet connections.
use missinggo.Base.{ℕ, ◌≡◌, refl, true, false, List, none, some, length, arith}
use missinggo.Base.Int.{int_eq, beq_ℤ_iff}
use missinggo.Base.Dict.{lookup, lookup-erase}
use missinggo.Inproc.{PacketConn, World, init, close, write_to}
use missinggo.Inproc.Kept.{
  init-Inv, resolve-Inv, put-Inv, listen-Inv, close-Inv, read-Inv, write-Inv,
}
use missinggo.Inproc.Steps.{
  Log, retimed, Step, Inv, new_log, do_write, do_listen, retime, do_read, do_close, do_resolve,
}

pub data Run : World → Log → Type 0 where
  here : Run init new_log
  next : {w w' : World} {log log' : Log} → Run w log → Step w log w' log' → Run w' log'

Step-Inv : {w w' : World} {log log' : Log} → Step w log w' log' → Inv w log → Inv w' log'
Step-Inv {w} {w'} {log} (do_resolve a) v = resolve-Inv w log a v
Step-Inv {w} {w'} {log} (do_listen a c x h) v = listen-Inv w x log a c v h
Step-Inv {w} {w'} {log} (do_close c me h k) v = close-Inv w log c me v h k
Step-Inv {w} {w'} {log} (do_write c me b to h) v = write-Inv w log c me b to v h
Step-Inv {w} {w'} {log} (do_read c me room h) v = read-Inv w log c me room v h
Step-Inv {w} {w'} {log} (retime c me r d h) v =
    put-Inv w log log c me (retimed me r d) v h refl refl (λ e n. (refl, refl)) (v.queued c me h)

-- After any interleaving of the operations of any callers and timers, from no connections on, where
-- no connection is closed a second time: the reads of a connection have returned, one by one in the
-- order of the writes, the packets that were sent to it, each with the address that it was sent from
-- and as many of its first bytes as the buffer had room for; what was sent after those waits to be
-- read; the connection at a port is open and has that port as its address; and every open connection
-- is the one at its port.
pub Run-Inv : (w : World) (log : Log) → Run w log → Inv w log
Run-Inv w log here = init-Inv
Run-Inv w log (next r s) = Step-Inv s (Run-Inv _ _ r)

-- Closing a closed connection takes its port from another connection that listens there since: what
-- an open sender within its deadline then writes to the port changes nothing, and is reported as
-- written in full.
pub write_to-close :
    (w : World) (c d : ℕ) (me other sender : PacketConn) (b : List ℕ)
    → me.closed ≡ true
    → lookup me.addr w.conns ≡ some d
    → w.store d ≡ some other
    → sender.closed ≡ false
    → sender.write_deadline.exceeded ≡ false
    → write_to sender b me.addr (close c me w) ≡ (close c me w, (none, length b))
unfolding write_to close
write_to-close w c d me other sender b again at s open_still in_time =
    ground
      (arith, open_still, in_time, lookup-erase me.addr me.addr w.conns, beq_ℤ_iff me.addr me.addr)
