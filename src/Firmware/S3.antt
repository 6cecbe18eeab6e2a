-- ===== src/Firmware/S3.antt =====
-- firmware-s3/src/bin/main.rs and firmware-s3/build.rs: the servers, the WiFi bridge, the start and the
-- build script of the S3 firmware. The code is that of firmware-c3 without the times that the latter
-- logs, so the definitions are shared.
use Prim.Native.String.{String}
use lamella.Base.{ℕ, Option, List, Bool, Result}
use lamella.Icd.{WifiFrame, WifiTxRequest, WifiTxResponse, WifiRxRequest, WifiRxResponse}
use lamella.Firmware.TxServer.{TxServer, SendResult, wifi_tx_server, send_tx_response}
use lamella.Firmware.RxServer.{RxServer, serve_rx}
use lamella.Firmware.Startup as Startup
use lamella.Firmware.Build as Build
use lamella.Firmware.Bridge.{
  Bridge, Event, queue_wifi_frame_while_serving_tx, receive_while_transmitting, transmit,
  wifi_bridge,
}

unfoldable pub s3_wifi_tx_server :
    {E : Type 0} → List (Result WifiTxRequest E) → TxServer → TxServer × List WifiTxResponse
s3_wifi_tx_server requests server = wifi_tx_server requests server

unfoldable pub s3_send_tx_response : List SendResult → Option Bool
s3_send_tx_response results = send_tx_response results

unfoldable pub s3_serve_rx : Option WifiFrame → WifiRxRequest → RxServer → RxServer × WifiRxResponse
s3_serve_rx arrival request server = serve_rx arrival request server

unfoldable pub s3_queue_wifi_frame_while_serving_tx : WifiFrame → ℕ → Bridge → Bridge
s3_queue_wifi_frame_while_serving_tx frame n b = queue_wifi_frame_while_serving_tx frame n b

unfoldable pub s3_receive_while_transmitting : WifiFrame → ℕ → Option WifiFrame → Bridge → Bridge
s3_receive_while_transmitting tx_frame n received b =
    receive_while_transmitting tx_frame n received b

unfoldable pub s3_transmit : WifiFrame → Bridge → Bridge
s3_transmit frame b = transmit frame b

unfoldable pub s3_wifi_bridge : List Event → Bridge → Bridge
s3_wifi_bridge events b = wifi_bridge events b

unfoldable pub s3_wifi_connection : List Startup.Radio → Startup.Connection → Startup.Connection
s3_wifi_connection events c = Startup.wifi_connection events c

unfoldable pub s3_startup_run : List Startup.Event → Startup.Startup → Startup.Startup
s3_startup_run events s = Startup.startup_run events s

unfoldable pub s3_linker_be_nice : List String → Build.Ending
s3_linker_be_nice args = Build.linker_be_nice args
