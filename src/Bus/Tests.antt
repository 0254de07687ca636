-- ===== src/Bus/Tests.antt =====
-- The theorems on the event bus at concrete buses (engine/bus/bus.go).
use hermi_nas.Prelude.{List, [], arith, refl, some, ℕ, ◌++◌, ◌∷◌, ◌≡◌}
use hermi_nas.Prelude.Int.{pos}
use hermi_nas.Bus
use hermi_nas.Bus.{Bus, remove}
use hermi_nas.Bus.Invariant.{IsValid, new-IsValid, subscribed-IsValid}
use hermi_nas.Bus.Invariant.Release.{Released, unsubscribe-Released}
use hermi_nas.Bus.Delivery.{Delivered, publish_total}
use hermi_nas.Bus.Traces.{Call, run, run_total, publish_all, publish_all-in_order}

-- Two subscribers of one topic, each with room for two events.
abbrev two : Bus ℕ
two = (Bus.subscribed "ddl" (Bus.subscribed "ddl" (Bus.new (pos 2))).1).1

two-IsValid : IsValid two
two-IsValid = subscribed-IsValid (subscribed-IsValid (new-IsValid (pos 2)) "ddl") "ddl"

-- A buffer that fills, a subscriber that leaves twice, and one that reads after that.
abbrev day : List (Call ℕ)
day =
    Call.subscribe "ddl"
    ∷ Call.subscribe "ddl"
    ∷ Call.publish "ddl" 7
    ∷ Call.publish "ddl" 8
    ∷ Call.unsubscribe "ddl" 0
    ∷ Call.unsubscribe "ddl" 0
    ∷ Call.publish "ddl" 9
    ∷ Call.receive 0
    ∷ []

run_total_example : (b : Bus ℕ) × (run 4096 day (Bus.new (pos 1)) ≡ some b) × IsValid b
unfolding Bus.new
run_total_example = run_total 4096 (pos 1) day (omega arith)

publish_total_example :
    (b' : Bus ℕ) × (Bus.publish "ddl" 7 two ≡ some b')
    × Delivered "ddl" 7 (two.subscribers "ddl") two b'
    × IsValid b'
publish_total_example = publish_total "ddl" 7 two-IsValid

publish_all-in_order_example :
    (b' : Bus ℕ) × (publish_all "ddl" (7 ∷ 8 ∷ []) two ≡ some b')
    × ((b'.chans 1).buffer ≡ (two.chans 1).buffer ++ 7 ∷ 8 ∷ [])
unfolding Bus.subscribed Bus.new
publish_all-in_order_example =
    publish_all-in_order "ddl" 1 (7 ∷ 8 ∷ []) two-IsValid refl (omega arith)

unsubscribe-Released_example :
    (b' : Bus ℕ) × (Bus.unsubscribe "ddl" 0 two ≡ some b') × Released "ddl" 0 two b'
unfolding Bus.subscribed Bus.new
unsubscribe-Released_example = unsubscribe-Released "ddl" 0 two-IsValid refl refl
