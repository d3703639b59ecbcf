-- ===== src/Inproc/Tests.antt =====
-- Two connections in a process.
use missinggo.Base.{◌≡◌, refl, true, false, [], ◌∷◌, none, some}
use missinggo.Base.Int.{pos, int_eq}
use missinggo.Base.Dict.{lookup}
use missinggo.Inproc.{
  AddrText, PacketConn, new_packet_conn, new_cond_deadline, World, init, get_port,
  resolve_inproc_addr, listen_at, listen_packet, write_to, close, enqueue, read_from, got,
}
use missinggo.Inproc.Delivery
use missinggo.Inproc.Delivery.{Run, Run-Inv, write_to-close}
use missinggo.Inproc.Kept.{listened}
use missinggo.Inproc.Steps.{
  Log, new_log, log_write, log_read, reaches, do_listen, do_write, do_read, Inv,
}

abbrev one : World
one = listened (pos 1) init

abbrev two : World
two = listened (pos 2) one

listen_one : listen_at (pos 1) init ≡ some (0, one)
unfolding listen_at listened init
listen_one = refl

listen_two : listen_at (pos 2) one ≡ some (1, two)
unfolding listen_at listened init
listen_two = refl

abbrev sender : PacketConn
sender = new_packet_conn (pos 1)

sender_there : two.store 0 ≡ some sender
unfolding listened init
sender_there = refl

abbrev to_two : Run two new_log
to_two =
    Delivery.next (Delivery.next Delivery.here (do_listen (pos 1) 0 one listen_one))
      (do_listen (pos 2) 1 two listen_two)

-- The first connection writes to the second, which reads with room for one byte.
abbrev three : World
three = (write_to sender (5 ∷ 6 ∷ []) (pos 2) two).0

abbrev sent_log : Log
sent_log =
    log_write (reaches sender (pos 2) two) (record { bytes = 5 ∷ 6 ∷ []; addr = pos 1 }) new_log

abbrev receiver : PacketConn
receiver = enqueue (record { bytes = 5 ∷ 6 ∷ []; addr = pos 1 }) (new_packet_conn (pos 2))

receiver_there : three.store 1 ≡ some receiver
unfolding write_to listened init new_cond_deadline
receiver_there = refl

short_read : (read_from 1 receiver 1 three).1 ≡ got (5 ∷ []) (pos 1)
unfolding read_from
short_read = refl

abbrev read_log : Log
read_log = log_read 1 1 (read_from 1 receiver 1 three).1 sent_log

Run-Inv_example : Inv (read_from 1 receiver 1 three).0 read_log
Run-Inv_example = Run-Inv (read_from 1 receiver 1 three).0 read_log (
    Delivery.next (Delivery.next to_two (do_write 0 sender (5 ∷ 6 ∷ []) (pos 2) sender_there))
      (do_read 1 receiver 1 receiver_there))

-- A closed connection whose port another has.
abbrev stale : PacketConn
stale = record {
  closed = true;
  addr = pos 2;
  reads = [];
  read_deadline = sender.read_deadline;
  write_deadline = sender.write_deadline;
}

taken : lookup stale.addr two.conns ≡ some 1
unfolding listened init
taken = refl

other_there : two.store 1 ≡ some (new_packet_conn (pos 2))
unfolding listened init
other_there = refl

in_time : sender.write_deadline.exceeded ≡ false
unfolding new_cond_deadline
in_time = refl

write_to-close_example :
    write_to sender (9 ∷ []) (pos 2) (close 7 stale two) ≡ (close 7 stale two, (none, 1))
write_to-close_example =
    write_to-close two 7 1 stale (new_packet_conn (pos 2)) sender (9 ∷ []) refl taken other_there
      refl in_time

in_use : (listen_packet AddrText.empty one).0 ≡ none
unfolding listen_packet resolve_inproc_addr get_port listen_at listened init
in_use = refl
