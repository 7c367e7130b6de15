-- ===== src/Meshtastic/Dispatch/Metrics.antt =====
-- `RequestDeviceMetrics` of internal/meshtastic/dispatcher.go: what it does before it waits, and
-- what ends the wait.
use diginode_cc.Prelude.{
  ◌≡◌, ◌≢◌, refl, Bool, true, false, not, Option, none, some, ◌==◌, if◌then◌else◌, arith,
}
use diginode_cc.Serial.Node.{DeviceMetrics}
use diginode_cc.Meshtastic.Dispatch.{Dispatcher, deliver_metrics_response}

pub data MetricsError : Type 0 where
  no_serial_manager no_local_node in_flight send_failed : MetricsError

-- The one-slot channel is made, unless there is one, and is taken away again if sending fails.
open_channel : Bool → Option (Option DeviceMetrics) → Dispatcher → Dispatcher × Option MetricsError
open_channel sent (some ch) d = (d, some in_flight)
open_channel sent none d =
    if sent
    then (record d { metrics_req = some none }, none)
    else (record d { metrics_req = none }, some send_failed)

-- The call up to its wait: an error, or none if it waits.
pub start_request : Bool → Bool → Dispatcher → Dispatcher × Option MetricsError
unfolding open_channel
start_request serial_mgr sent d =
    if not serial_mgr
    then (d, some no_serial_manager)
    else if d.local_node_num == 0
    then (d, some no_local_node)
    else open_channel sent d.metrics_req d

-- The wait: `none` while there is nothing in the channel and the context is not done. Of the two,
-- if both are there, `select` takes any; `done` says that it took the context.
received : Bool → Option (Option DeviceMetrics) → Option (Option DeviceMetrics)
received true ch = some none
received false (some (some dm)) = some (some dm)
received false _ = none

finished : Dispatcher → Option (Option DeviceMetrics) → Option (Dispatcher × Option DeviceMetrics)
finished d none = none
finished d (some answer) = some (record d { metrics_req = none }, answer)

pub finish_request : Bool → Dispatcher → Option (Dispatcher × Option DeviceMetrics)
unfolding received finished
finish_request done d = finished d (received done d.metrics_req)

-- A request that is sent is answered by the next metrics of the local node, and leaves the
-- dispatcher as it was.
start_request-finish_request :
    (dm : DeviceMetrics) (d : Dispatcher)
    → d.local_node_num ≢ 0
    → d.metrics_req ≡ none
    → finish_request false (deliver_metrics_response dm (start_request true true d).0)
      ≡ some (record d { metrics_req = none }, some dm)
unfolding start_request finish_request deliver_metrics_response
start_request-finish_request dm d known idle =
    let e : (d.local_node_num == 0) ≡ false = ground arith in rw (e, idle) refl
