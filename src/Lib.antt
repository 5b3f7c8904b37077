-- ===== src/Lib.antt =====
-- A verification library for netsim, the simulator that carries the audio of acoustic modems
-- through a simulated ocean. Paths are from the root of the repository.
--
-- The program. Modems play and record on a sound card. In netsim_core (src/apps/netsim_core) one
-- thread for each modem exchanges the samples with JACK (jack_thread.h), one finds packets in what
-- was captured (detector.h), one, which stands in for the ocean, makes from each packet what the
-- other modems hear, and one writes what it sees to files (logger.h). The threads share nothing but
-- the blocks that they publish to each other (src/lib/core/common.h). netsim_udp
-- (src/apps/netsim_udp) carries datagrams between modem drivers instead of audio: it asks for an
-- impulse response for each packet and releases the packet with the delay and the loss that the
-- response gives. netsim_manager, netsim_tool, the TCP library and iBellhop configure and feed them.
--
-- The files.
--   Prelude      numbers, lists, maps and multimaps (std::map and std::multimap as lists in the
--                order of the keys), texts, and `Double`: the operations of float and double that
--                the code applies, of which nothing is assumed, so that rounding and NaN are
--                allowed for. Concrete runs are over whole numbers.
--   Core.Audio   AudioBuffer and TaggedAudioBuffer. A shared pointer is an Option.
--   Core.CircularBuffer  what the detector uses of boost::circular_buffer, as an interface whose laws
--                are the documented effects on the list of elements, with a list that fulfils it.
--   Core.Detector  DetectorThread::audio_in, with its end-of-packet loop in Silence, and the buffer
--                size change. A state record is passed on; what is published is returned. `drain` has
--                the size of the prebuffer as fuel, and pops one element in each round.
--   Core.Logger  LoggerThread::log_audio: the nested maps files_, the files as streams of writes and
--                the published events, as a list of effects.
--   Core.Jack    JackThread: a port of jack_process and audio_out; the thread's state, the callbacks
--                and loop, whose two locked sections are steps with callbacks in between, are in
--                Thread. Stream says what a queue of blocks stands for as one stream of samples;
--                Setup is the constructor, which connects the ports. The
--                `while` that looks for the next sample takes one block from the queue in each round.
--   Core.Network which threads of netsim_core run, the groups that connect them, and the bridge
--                between instances; a published message reaches each subscriber once. Processors
--                has the echo processor of src/test, which sends back what it hears.
--   Udp          NetSimUDP: the tables and the routing of a datagram (Routing), the impulse response
--                (Response), the performance of pairs (Performance) and loop (Delay). Tables, Forwarding,
--                Receive, Release and Stuck say what becomes of the packets.
--   Manager      NetSimManager: the tables of its configuration, the requests of vehicle simulators,
--                those that it passes on with the environment of their source (Requests), and the
--                sentence for the GPS receiver of a vehicle (Gps), whose fields are read back as Decimal
--                reads numerals.
--   Gateway      moos_plugin.cpp (src/lib/moos_translator_plugin): which requests of the manager the
--                gateway of an environment hands on (Routing), and what it reads of MOOS.
--   Tcp          tcp_session: what is written and read, as texts of character codes; tcp_server: the
--                table of sessions, of which a weak pointer is a number that may be gone. The fuel of
--                `read` bounds the number of messages in the buffer.
--   Tool         NetSimTool of netsim_tool: the constructor's requests, the loop that sends positions and transmissions, with
--                lists of actions; the number of loops is the fuel of `run`.
--   Acoustics    environment.cpp: the message that describes an ocean, and output_env, which writes the
--                five files of the ray tracer (src/lib/acousticstoolbox), as lists of what goes to `<<`.
--   Bellhop      CiBellhop of src/apps/iBellhop: the profile (SoundSpeed), the positions (Positions), the
--                run of the ray tracer with the state of the file streams (Calculate), the requests
--                (Requests). std::sort is a parameter, of which its order and its elements are known
--                (SoundSpeed/Sorting, with a sort by insertion for concrete runs).
-- In each of them `none` as the result of a call is a fault: an exception, a null pointer, an access
-- out of bounds, or the use of an indeterminate value. Proofs and examples are in child modules.
--
-- Not modelled: the libraries (Goby, JACK, Boost.Asio, protobuf), of which the code's use is a
-- parameter or a list of effects; log messages; the modem threads of netsim_tool, the sockets, and the
-- post-processing and the web page, which only draw.
pub mod Prelude
pub mod Core
pub mod Acoustics
pub mod Bellhop
pub mod Gateway
pub mod Manager
pub mod Tcp
pub mod Tool
pub mod Udp
