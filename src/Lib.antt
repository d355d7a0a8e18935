-- ===== src/Lib.antt =====
-- PicoCommon: network services and a serial console for the Raspberry Pi Pico W, in C over lwIP.
--
-- A Pico that is an access point runs a DHCP server, which leases its eight addresses, and a DNS server,
-- which answers every name with the Pico's own address. A Pico that joins a network runs an HTTP server
-- over a TCP server: tcp_server.c registers callbacks with lwIP and gives the bytes of a packet to
-- http_server.c, which cuts the request into path and parameters, looks the page up in url_collection.cpp
-- and lets the page's generator send its answer back through tcp_server.c. wifi.c joins the network. The
-- access point has a web server of its own, picow_access_point.c. The programs also have a console on the
-- serial port, and keep numbers and texts in files.
--
-- The files, with what they model:
-- - Common, Common/Tests, Common/Lists, Common/Memory: tests into Bool, lists, and C memory: an array is a
--   list of bytes, a pointer an index, and an access outside the array is `none` (or a named fault).
-- - Net: lwIP as the code sees it: addresses, the answers of its allocator and of its send, and the calls
--   made on it. lwIP and the pico-sdk are not part of the repository, so what they answer is a parameter.
-- - Dhcp/Options: opt_find and opt_write_* of ap_website/dhcpserver/dhcpserver.c. Dhcp/Leases: the lease
--   table, its loop in DHCPDISCOVER, and the 16-bit expiry times. Dhcp/Socket: the UDP socket, start and
--   stop. Dhcp/Process: dhcp_server_process, one function per case of its switch, composed in the order of
--   the code; `ignore` is `goto ignore_request`. Dhcp/Run: packets one after the other. Dhcp/Options/WellFormed:
--   options with a tag, a length and a body. Dhcp/Process/Padding: the pad option. Dhcp/Handshake: the packets of one
--   client, and of two, from DISCOVER to REQUEST.
-- - Dns/Walk: the loop over the question's labels in ap_website/dnsserver/dnsserver.c. Dns/Socket: the UDP
--   socket, start and stop. Dns/Process: dns_server_process.
-- - Wifi: http_server/wifi.c: the starts, wifi_set_host_name and wifi_stop.
-- - Tcp/Session: the callbacks of http_server/tcp_server.c on one connection; `none` is a use of memory
--   that was freed, and `packets` counts the pbufs that were not; the array on the stack holds the same bytes
--   before each packet. Tcp/Lifecycle: the server's global state, its starts and tcp_server_stop.
-- - Http/Text: C strings, snprintf and the texts of http_server/http_server.c. Http/Url:
--   http_server/url_collection.cpp. Http/Request: handle_tcp_data and http_get_generate;
--   Http/Request/Closed and Http/Request/Safety: requests in an array that ends in a zero. Http/Response:
--   html_server_send_get_responce and http_send_404. Http/Lifecycle: the starts and the stop.
-- - Html: replace_newlines_with_html of ap_website/html_helper.c, over its buffer.
-- - AccessPoint: is_default_requests of ap_website/picow_access_point.c. AccessPoint/Connection: the state
--   of a connection and its callbacks; AccessPoint/Request: ap_tcp_server_recv and http_get_generate, with
--   create_html_page of ap_website/url_collection.cpp, whose map works as that of Http/Url. Pages and the
--   handler are functions that take the connection. AccessPoint/Run: what lwIP reports, in sequence.
-- - Console/Commands: the registered commands of serial_console/serial_console.cpp in their std::map.
--   Console/Poll: serial_poll, first_index_of and run_command over recive_buffer; what a call of a
--   command's function does is a parameter. Console/Defaults: serial_console/default_commands.c.
-- - Filesystem/Hal: the file layer of filesystem/filesystem.c as a record of functions, with what its
--   documentation says of them. Filesystem/Values: get_int, set_int, get_string and set_string;
--   Filesystem/Boot: init_filesystem, which counts the starts; Filesystem/Errors: the error texts.
-- - AccessPoint/Lifecycle: access_point_init and access_point_deinit, with the starts and stops of the DHCP
--   and DNS servers. Example: the pages of main_ap.cpp, registered with the access point.
-- - Example/Sensor: the pages of main.cpp, registered with the HTTP server; Example/Sensor/Safety: its connections.
--   Example/Blink: the light that the main loop of both programs turns on and off.
-- - AccessPoint/Portal: a client's first packet, from lwIP's report to the redirect, and the three servers of an
--   access point that runs. AccessPoint/Portal/Dangling and
--   AccessPoint/Delivered/Lent: the arrays that lwIP is lent, tcp_write being called without a copy.
-- - Status: serial_console/system_status.c over what the linker and newlib answer, and, in
--   Status/Temperature, the converter of system/temperture.c. Console/Defaults/System: the commands that
--   print it.
-- - Example/Startup, Example/Main, Example/Sensor/Main: `main` of main_ap.cpp and of main.cpp up to the loop, with
--   prepare_loop and the commands that both add.
-- - The Tests modules have concrete inputs.
--
-- Bytes of an array that C leaves unset are an argument (`stack`, `buffer`). A number of w bits is a natural
-- number with its wrap-around written out. The clock of the DHCP server is a function of the index of its
-- reading. Debug prints are left out.
--
-- Loops are recursion on fuel or on the list that they walk. opt_find advances by two at least over 308
-- bytes, so 155 rounds are enough; the walk over a question advances by two at least over 300 bytes, and has
-- 300 rounds; ten digits are enough for a number of 32 bits.
--
-- Not modelled: of the console, the commands that restart the chip and that poll the console again; floating
-- point, so the temperatures of system/temperture.c and the percentages of serial_console/system_status.c
-- are texts that are given; of the example programs main.cpp and main_ap.cpp, stdio_init_all, the waits and
-- the direction of the light's pin; the options of lwIP.
pub mod Common
pub mod Net
pub mod Dhcp
pub mod Dns
pub mod Wifi
pub mod Tcp
pub mod Http
pub mod Html
pub mod AccessPoint
pub mod Console
pub mod Filesystem
pub mod Status
pub mod Example
