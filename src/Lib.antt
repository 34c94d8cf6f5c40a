-- ===== src/Lib.antt =====
-- Verification library for esp32_common, the code that the ESP32 applications of its author share:
-- an application protocol, device configuration, user interface input, supervision of the device, and
-- communication over Wi-Fi, MQTT, TCP and Bluetooth.
--
-- The program's parts and how they interact
--   At boot `checkLastCrash` decides from the crash record whether the device starts, and
--   `get_nvs_conf` loads `dev_conf`, which all other parts read. `dev_mon_task` starts the MQTT client
--   or the network log when it is told of a Wi-Fi connection. The MQTT client receives commands and
--   hands their words to the command handler of the application; one of the commands, `flashled`,
--   calls `set_flash_led`. The rotary encoder sends its events to the queue of the user interface. The
--   application protocol builds and reads the frames that the WebSocket and TCP servers exchange.
--   On the console `do_system_cmd` calls the handler of a command: `nvsconf` changes the entries that
--   the next boot loads, `ota` writes an image to a partition, and `boot` selects the partition to start.
--
-- What models what (paths are those of the repository)
--   Common: names that the modules share. Memory is a C array of bytes with writes that must stay
--     inside it, Decimal is `%d`, `%u`, `atoi` and `strtoul` of C, Bits is binary digits and shifts.
--   AppProto: ws_mqtt_proto/app_proto.c. Frame is `app_proto_t`, Build is `append` and
--     `build_app_proto`, Parse is `parse_app_proto`; the other modules prove.
--   RotEnc: utils/rot_enc.c. Handler is the interrupt handler, the timer callbacks and `rot_enc_cmd`
--     as a transition on the static variables for each message, with the calls it makes as output.
--   NvsConf: `get_nvs_conf` of utils/utils.c with `dev_config_t` of common_defines.h. Conf is the
--     configuration with its defaults, Load the thirteen blocks of the function. The storage is a
--     record of operations (Nvs) with named laws (IsNvs), and the address functions of lwip are a
--     record (Net) with laws (IsNet): a stored text is read back, `inet_addr` reads what IPSTR prints.
--   NvsCerts: `get_nvs_cert` and `get_all_nvscerts` of utils/utils.c, with what the storage and the
--     allocator answer as a record (Source).
--   FlashLed: `next_power_of_2`, `set_flash_led` and `flash_timer_callback` of utils/utils.c. Whether
--     a pin is an output and whether the timer can be made are arguments.
--   DevMon: utils/dev_mon.c. Handlers is `timer_handler` with `add_handler` and `remove_handler`,
--     Messages the loop of `dev_mon_task` on the messages that the queue delivers.
--   CrashHandler: utils/crash_handler.c and utils/crash_handler.h. Record is `crash_record_t`,
--     Handlers its writers, Check is `checkLastCrash` with the device as a record of the results of
--     the calls it makes, Steps sequences of panics, restarts and expiries of the timer, Log
--     is `logCrashInfo`.
--   MqttCtrl: tcp/mqtt_ctrl.c. Message is the reception of a command, by the event handler itself in a
--     build with PROCESS_MESSAGE_BY_HANDLER and by the task in the other builds, with every allocation
--     free to fail, Connection the events of the connection.
--   TcpLog: tcp/tcp_log.c. Init is `tcp_log_init` on its static variables, Lines the composition of a
--     line, Sending the branch of `tcp_log_task` that sends it, with the answers of the socket as
--     input.
--   Tcp: tcp/tcp_server.c and tcp/tcp_client.c. Sending is their loops around `send`, Server the accept
--     and receive loops of `tcp_server`, Client the attempts of `tcp_client_task`, both as transitions
--     on the results of the calls of sockets, with the other tasks as steps between them. The layout of
--     `socket_message_t`, which the application declares, is a record of operations (Layout) with
--     named laws (IsLayout). The loops around COMMACK and COMMNACK read memory behind the message, which
--     is an input. Handshake puts the two ends together.
--   Wifi: cmds/cmd_wifi.c, as it is built with WIFI_STA_ON and WIFI_AP_ON. Events is `event_handler` on
--     the bits of `comm_event_group`, with the timer that tries again, and `wifi_disconnect`; Join is
--     `wifi_join`; Commands the command `wifi` and `get_sta_conf`. What the driver returns and the
--     events that come during a wait are the input.
--   Ota: utils/ota.c. Task is `get_updateable_partition` and `ota_task`, in parts from the inside out,
--     with the answers of the HTTP client and the flash as input and the calls as output; Flash reads off
--     the calls what is written, and to which partition.
--   Ad7811: ad7811/ad7811.c with `spiad_rw` of comm/spicom.c. Sampling is the callback of the timer and
--     `adc_get_data_7911`, with what the transactions on the bus return as input.
--   SystemCmd: cmds/cmd_system.c. Names has the names of the commands and of the entries, with
--     `do_system_cmd`; Settings is `nvs_conf` on the configuration and the storage of NvsConf, Boots what
--     the next boot loads after it, Console the state that it takes over from the storage. The call of
--     `tcp_log_init`, which TcpLog models, is an event of the run. Partitions is `boot_from`, on the
--     partitions of Ota.
--
-- State and errors
--   Static variables are the fields of a record that a function takes and returns. The calls that a
--   function makes to the system (queues, timers, pins) are a list in the order in which they are
--   made. A return code is a number or a data type; an access outside an array is a `none` or a `fault`
--   of its own, so a theorem that gives a result also says that no such access happens. An `int` whose
--   value is only copied, compared or tested for 0 is its bit pattern; additions that may wrap have
--   their `% 2 ^ w`.
--
-- Bounds and fuel
--   All loops are structural recursion on the list or the count that the C loop runs over. The
--   tokenising loop of `parse_app_proto` runs at most MAX_TOKENS times, which is its first argument, as
--   in the code. The loop around `send` sends a byte in every round but the last, so its fuel is the
--   length of the line or the message; a loop
--   whose calls take nothing ends as `endless`. The download of an update needs one round more than
--   the bytes that the server gives. The timer that samples expires once more than there are samples
--   at most. The decimal printer has 20 digits of fuel, enough for a 64-bit number.
--
-- What is not modelled, and why
--   The set-up of drivers, pins, tasks and queues, and log output: calls of ESP-IDF without logic of
--   their own. The copies of other projects' code: owb (Espressif's onewire_bus and ds18b20),
--   nmea (Espressif's NMEA parser example), bluedroid and nimble (example servers). The Kalman filters
--   compute on floating point numbers. The other commands of cmds/cmd_system.c print
--   reports, work on files or call other components.
--   The library has no model of the converters of the ESP32, the SPI and I2C
--   helpers, and the rest of utils/utils.c, tcp/mqtt_ctrl.c and
--   tcp/tcp_log.c.
pub mod Common
pub mod AppProto
pub mod RotEnc
pub mod NvsConf
pub mod NvsCerts
pub mod FlashLed
pub mod DevMon
pub mod CrashHandler
pub mod MqttCtrl
pub mod TcpLog
pub mod Tcp
pub mod Wifi
pub mod Ota
pub mod Ad7811
pub mod SystemCmd
