-- ===== src/Lib.antt =====
-- aprs_wx: a daemon that reads weather reports from an APRS server, weighs them by their distance and
-- sends the weighted means to a database; sys_monitor, which sends the load of a computer; and two C
-- programs that read a temperature sensor, outside the build.
--
-- How the parts work together. `main` of src/aprs_wx.cpp reads its configuration, opens a connection to
-- a server, reads a line by `getPacket` and decodes it by `decode`. It puts a weather report into the
-- aggregator under the name of its sender, forms the sums of all reports anew, and posts them. A line
-- that starts with `# aprsc`, as that server identifies itself, makes it post the old sums again, if
-- the settings say so. Behind a number of packets it goes on to the next connection, with the same aggregator. `main` of
-- src/sys_monitor.cpp posts the temperature and the usage of the processor under the name of the host.
--
-- The files and the code that they model:
--   Packet        src/APRS_Packet.h, src/APRS_Packet.cpp: `APRS_Packet`, `APRS_Position` and
--                 `APRS_WX_Report` as records (Position, Report), `WeatherItemList` (Items),
--                 `safeConvert` (Convert), `printOn` (Print).
--   AprsIs        src/APRS_IS.h, src/APRS_IS.cpp: `mPacket`, `p0` and `p1` as the record `Cursor`,
--                 `decodeCoordinate` (Coordinate), `decode` (Decode).
--   Socket        src/APRS_IS.cpp: `getPacket` with `select` of src/basic_socket.h (Receive), and
--                 `openConnection` by its results (Opening) and on the object with its descriptor
--                 (Opening/Object). src/basic_socket.h: `findPeerInfo` (Peers); the members of
--                 `basic_socket` as a record, with its constructors, the move assignment, `close`,
--                 `connect`, `accept` and `select` (Object, Object/Timeout), `socketFlags`,
--                 `closeOnExec` and `listen` (Object/Flags), `getPeerName`, `shutdown` and the
--                 accessors (Object/Queries), and several objects with the open descriptors
--                 (Object/World).
--   Aggregator    src/WeatherAggregator.cpp: the map (Reports), `aggregateData` (Sums),
--                 `printInfluxFormat` and `pushToInflux` (Influx).
--   Daemon        src/aprs_wx.cpp: the configuration (Config) with its table and its messages
--                 (Config/Messages), the start with all that it writes (Config/Console), the body
--                 of the inner loop (Handling; Ending for the packets that end it, Senders for two
--                 reports in a row), the inner loop (Session), the loop over connections with
--                 `main` (Visits), and a map of reports that both follow (Heard).
--   Monitor       src/sys_monitor.cpp: `CpuStats`, the configuration (Config) with its table and its
--                 messages (Messages), the loop with `main` (Rounds); src/unixstd.h: `Hostname`.
--   Sensor        src/dhtxx_pigpio.c: the callback and the attempts (Pigpio), `main` with its arguments
--                 (Pigpio/Arguments); src/DHT22.c: `read_DHT_Data` and `main` (Wiring).
--   Utilities     the interface of the utilities beside this repository, and what goes to curlpp;
--                 Utilities/Messages: the lines on the values of a configuration that both programs have.
--   Std, Double   what the sources use of the C++ library and of floating point.
--   Prelude       shared tests, lists and outcomes. Tests holds runs and instances.
--
-- How the code is translated. A call returns an `Outcome`: a value, an exception, undefined behaviour
-- (a read outside a string, the dereference of a null pointer), the end of the process, or
-- `unfinished`, which stands for fuel or events that ran out. A method that changes the object takes
-- the state and returns the new one. `std::size_t` and `unsigned long long` are natural numbers with
-- their wrap-around modulo 2 ^ 64 written out, `uint32_t` modulo 2 ^ 32. A byte is its code, read as
-- unsigned. A `std::map` is the list of its entries in the order of the keys. The steady clock is an
-- argument. `double` is a type with operations, an instance argument about which nothing is assumed;
-- a law that a theorem needs is one of its hypotheses.
--
-- Bounds and fuel. The weather loop of `decode` has fuel for every byte of the packet and one more
-- round. The inner loop of `main` has fuel for its packets; the server cycle rate bounds them,
-- and with them the count of packets, which is therefore written without its wrap-around.
-- `getPacket` takes the events that the system delivers, one in each round. A text is assumed shorter
-- than 2 ^ 63 bytes, as `max_size` says.
--
-- The sensor programs take what the system shows them as arguments: the edges that pigpio reports
-- while `main` waits, and the level at each `digitalRead`. Their `float` is an instance argument too.
--
-- `findPeerInfo` on an object is modelled by its result; the descriptors that it makes and closes
-- itself are counted there (Peers). The loops over connections and over the rounds of the monitor
-- run over a list of what they find, up to the round in which a signal clears `run`.
--
-- What is not modelled: the class that reads the configuration file and the parser of the command line,
-- which belong to a submodule (their conversions, the items and the options that they find are
-- arguments), the transfers by curlpp (the monitor takes their outcome as an argument), how many bytes
-- of the login line `write` takes, which is only told on the console, the messages on the console
-- behind the start of the daemon and, in the monitor, other than those on its configuration, the width
-- and the flags of a stream other than its notation and precision, and the signals on the pin and the
-- delays of the sensor programs.
pub mod Prelude
pub mod Std
pub mod Double
pub mod Utilities
pub mod Packet
pub mod AprsIs
pub mod Aggregator
pub mod Monitor
pub mod Socket
pub mod Daemon
pub mod Sensor
mod Tests
