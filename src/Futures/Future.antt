-- ===== src/Futures/Future.antt =====
-- a1-futures/future.go: a future, its completion, and the filter on weather data.
use omni_paxos_kv.Prelude.{Bool, true, false, Option, none, some, if◌then◌else◌}

-- A channel with room for one value, which may be closed.
pub record Future (A : Type 0) : Type 0 where
  pub result : Option A
  pub closed : Bool

-- How a receive ends: it waits, or it brings a value, or nil from a channel that is closed.
pub data Received (A : Type 0) : Type 0 where
  waits : Received A
  brings : A → Received A
  nil : Received A

-- How a completion ends; a send on a closed channel panics, and one on a full channel waits.
pub data Completed (A : Type 0) : Type 0 where
  done : Future A → Completed A
  panics : Completed A
  blocks : Completed A

module _ {A : Type 0} where
  unfoldable pub new_future : Future A
  new_future = record { result = none; closed = false }

  unfoldable pub close_future : Future A → Completed A
  close_future f = if f.closed then panics else done (record f { closed = true })

  unfoldable pub complete_future : A → Future A → Completed A
  unfolding close_future
  complete_future res f =
      if f.closed
      then panics
      else elim f.result [ none ↦ close_future (record f { result = some res }) | some _ ↦ blocks ]

  unfoldable pub get_result : Future A → Received A × Future A
  get_result f = elim f.result [
    | some a ↦ (brings a, record f { result = none })
    | none ↦ (if f.closed then nil else waits, f)
  ]

-- `err` holds an error's text; the number type is a parameter.
pub record WeatherDataResult (F E : Type 0) : Type 0 where
  pub value : F
  pub err : Option E

-- `above` is the test for more than 35 degrees.
unfoldable pub heat_wave_warning : {F E : Type 0} → (F → Bool) → WeatherDataResult F E → Bool
heat_wave_warning above res = elim res.err [ some _ ↦ false | none ↦ above res.value ]
