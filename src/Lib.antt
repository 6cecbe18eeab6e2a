-- ===== src/Lib.antt =====
-- Lamella lets a computer use the WiFi interface of an ESP32 over USB. The host's program reads
-- Ethernet frames from a TAP device and hands them, one at a time, to the firmware, which gives
-- them to the radio; and it polls the firmware for frames that the radio received, which it writes
-- to the TAP device. Both are requests over Ergot that may be lost, repeated or answered late, so
-- each carries a transaction: a session and a 32-bit id. This library models the code of both
-- sides, and joins the models of the two in Protocol.
--
--   Icd: icd/src/lib.rs, the messages; a frame is its bytes, and u32 and u64 wrap around.
--
--   Bridge.Wait: host/src/bridge.rs, await_endpoint_response and the function that it calls. What
--       becomes ready in `select!`, and when, in nanoseconds since the call, is a list; the
--       closure that makes the backup request changes a state of the caller's.
--
--   Bridge.Mac: host/src/bridge.rs, the queries for the MAC address and the peer's address.
--
--   Metrics, Faults: host/src/metrics.rs, the counters and, in Metrics.Report, snapshot, emit and
--       report, where a line of the file is its list of keys and values;
--       host/src/serial_transport.rs, the fault injector.
--
--   Exchange: the loop of wifi_exchange of host/src/serial_transport.rs and
--       host/src/nusb_transport.rs, which send_request, account, handle_result, after_wait and
--       request_loop model for both directions. A Link holds what differs between the transports,
--       a Kind what differs between the directions.
--
--   SerialTransport, NusbTransport, TapReader, Transports: the rest of the two files: the links,
--       the session ids, the tasks, and the reader of the TAP device. SerialTransport.Entry is run
--       with run_with_port, the beginning of run_test_mode, and find_device_by_id,
--       SerialTransport.HotPlug is run_with_hotplug, with the interfaces that it leaves
--       registered, SerialTransport.Target the reading of the test mode's targets. Transports has
--       the theorems about the tasks with their links. NusbTransport.Devices is
--       reconcile_and_register_devices with the functions that it calls, NusbTransport.Run is run,
--       NusbTransport.TestRun run_test_mode up to the test; in all three the devices on the bus,
--       and what Ergot and the queries answer, are arguments.
--
--   Firmware: firmware-c3/src/bin/main.rs. TxServer and RxServer are the two endpoint servers,
--       Bridge is wifi_bridge with transmit_to_wifi, transmit_only_to_wifi and
--       queue_wifi_frame_while_serving_tx, a state machine whose modes are the places where the
--       task waits. Device interleaves wifi_tx_server and wifi_bridge over HOST_TO_WIFI_CHANNEL
--       and WIFI_TX_COMPLETE_CHANNEL; Receiver joins wifi_rx_server and wifi_bridge by
--       WIFI_TO_HOST_CHANNEL. Startup is wifi_connection with the waits of wifi_bridge before its
--       loop, Startup.Serial the serial number of the S3, SerialTx run_tx, Build the build script,
--       whose process arguments are a list. S3 names the same code of firmware-s3/src/bin/main.rs.
--
--   Protocol: host, link and server together. Defs has the steps: the host begins a transaction,
--       sends its request any number of times, and accepts a response with its id; requests and
--       responses are lost at any place of their queues; the server serves the oldest request.
--       Services has the two servers of the firmware as such servers, ExactlyOnce what becomes of
--       the frames, Receiving has wifi_rx_server together with wifi_bridge as a service, EndToEnd
--       the way of a frame from the radio to the host. Client has what an attempt of request_loop
--       of Exchange is for link and server: what the link carries is what the code has added to
--       the log of its requests, and what the wait reads is what the link delivers. Turns makes a
--       run of the protocol's steps of each transaction of the loop; HostTx and HostRx do so for
--       whole passes of wifi_exchange, each for one direction, where the transactions of the other
--       direction only take ids.
--
--   TestMode: host/src/test_mode.rs, the device for smoltcp, the exchange task and the frame
--       logger; Download is run_http_download_test, Bandwidth run_tcp_bandwidth_test and
--       run_udp_bandwidth_test, Ping run_smoltcp_stack, over what the sockets of smoltcp and the
--       clock answer; Ending is how the first three loops end.
--
--   SystemNetwork: host/src/system_network.rs, the commands for the temporary NetworkManager
--       profile, and endpoint_host; Routes is wait_for_tap, command_output and
--       report_wireguard_routes, the last as the commands that it runs.
--
--   Main: host/src/main.rs, create_tap_interface, where a text is the list of its bytes; Program
--       is main, over the command line that clap has read.
--
--   Base: names and lemmas that all share. Duration: std::time::Duration. Examples: the theorems
--       at concrete inputs.
--
-- What the environment does is an argument everywhere: schedules, the results of requests, of the
-- TAP device and of commands, the events at the radio. Loops run over these lists, so no fuel is
-- chosen; where a list ends before the loop does, the result says that it still waits. The link of
-- Protocol loses and delays messages but keeps their order in each direction, as one USB
-- connection does, and one session is followed from the start of both sides, for at most 2 ^ 32
-- transactions, after which an id comes again.
--
-- Not modelled are Ergot, smoltcp, embassy, the radio driver and NetworkManager, whose sources are
-- not in the repository; the initialisation of the firmware's hardware and its tasks that run
-- Ergot, as they only call these packages; the reading of the command line and the signals;
-- logging; the answers to pings; and the diagnostic programs.
pub mod Base
pub mod Icd
pub mod Duration
pub mod Bridge
pub mod Metrics
pub mod Faults
pub mod Exchange
pub mod TapReader
pub mod SerialTransport
pub mod NusbTransport
pub mod Transports
pub mod TestMode
pub mod SystemNetwork
pub mod Main
pub mod Firmware
pub mod Protocol
pub mod Examples
