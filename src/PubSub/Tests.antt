-- ===== src/PubSub/Tests.antt =====
-- A PubSub of numbers: one value goes to one subscription.
use missinggo.Base.{ℕ, ◌≡◌, refl, true, false, [], ◌∷◌, none, some, ◌||◌, not}
use missinggo.PubSub.{
  is_nil, receiving, Subscription, World, new_pub_sub, lazy_init, goes, send_item, publish,
  subscribe, receive, do_init, do_publish, do_subscribe, do_receive,
}
use missinggo.PubSub.Safe.{published}
use missinggo.PubSub.Handing.{received}
use missinggo.PubSub.Runs
use missinggo.PubSub.Runs.{Run, SendsGo, Run-SendsGo}
use missinggo.PubSub.Follow
use missinggo.PubSub.Order.{InOrder, subscribe-InOrder}
use missinggo.PubSub.Follow.{Steps}

abbrev made : World ℕ
made = lazy_init ℕ (new_pub_sub ℕ)

abbrev to_made : Run ℕ made []
to_made = Runs.next Runs.here do_init

abbrev joined : World ℕ
joined = subscribe ℕ 0 made

abbrev sent_one : World ℕ
sent_one = published ℕ 5 0 joined

publish_one : publish ℕ 5 joined ≡ goes sent_one
unfolding publish send_item subscribe lazy_init new_pub_sub
publish_one = refl

abbrev me : Subscription ℕ
me = record { next = some 0; phase = receiving; values = []; closed = false }

abbrev took_one : World ℕ
took_one = received ℕ 0 me 5 1 0 sent_one

receive_one : receive ℕ 0 me sent_one ≡ some took_one
unfolding receive subscribe lazy_init new_pub_sub
receive_one = refl

open_first : joined.closed ≡ false
unfolding subscribe lazy_init new_pub_sub
open_first = refl

is_me : sent_one.subs 0 ≡ some me
unfolding subscribe lazy_init new_pub_sub
is_me = refl

abbrev to_took : Steps ℕ joined [] took_one (5 ∷ [])
to_took =
    Follow.next (Follow.next Follow.here (do_publish 5 sent_one open_first publish_one))
      (do_receive 0 me took_one is_me refl receive_one)

free : made.subs 0 ≡ none
unfolding lazy_init new_pub_sub
free = refl

ready : (made.closed || not (is_nil made.next)) ≡ true
unfolding lazy_init new_pub_sub
ready = refl

subscribe-InOrder_example : InOrder ℕ 0 took_one (5 ∷ [])
subscribe-InOrder_example = subscribe-InOrder ℕ made took_one [] (5 ∷ []) 0 to_made ready to_took

abbrev to_took_run : Run ℕ took_one (5 ∷ [])
to_took_run =
    Runs.next
      (Runs.next (Runs.next to_made (do_subscribe 0 free ready))
        (do_publish 5 sent_one open_first publish_one))
      (do_receive 0 me took_one is_me refl receive_one)

Run-SendsGo_example : SendsGo ℕ took_one
Run-SendsGo_example = Run-SendsGo ℕ took_one (5 ∷ []) to_took_run
