-- ===== src/Lib.antt =====
-- EerieLeap: the application of an automotive sensor device on the Zephyr real-time system.
--
-- The repository holds the application under app/src. What it builds on (the sensors, the
-- configuration managers, the CAN bus and DBC services, the Lua runtime, the work queue, the frame
-- buffer) is a git submodule, and Zephyr, Lua and the C++ library are outside too. Each of these is a
-- parameter here: a record of operations on an abstract world, whose documented behaviour is stated
-- as named hypotheses where a theorem needs it.
--
-- Common: lists and integers over native numbers, ordered sets, and Common/Effects.antt: a call
-- returns, throws with the bytes of its `what()`, or faults, which stands for undefined behaviour such
-- as a null dereference. The effects that a call had before an exception are kept.
--
-- Http: app/src/domain/http_domain.
--   SensorsApi.antt is SensorsApiController, the handlers of /api/sensors over its static members:
--   `post_handler` collects the chunks of a body into the buffer (`receive`, `append_chunk`), and
--   `update_sensors_config` parses and stores it and restarts the sensors' processing; `get_handler`
--   renders the current configuration. SensorsApi/Store.antt and Current.antt have a store of sensors
--   as the abstract view of the endpoint. Server.antt is HttpServer, AccessPoint.antt is
--   WifiApService in a build with CONFIG_WIFI, with its event handler in AccessPoint/Events.antt.
--   Resources.antt has the service with its paths and what each of them serves. Requests.antt lets
--   requests interleave with main, which starts the server before it initializes its handlers.
-- Canbus: app/src/domain/canbus_domain.
--   Platform.antt lists what is called outside. Frame.antt is CanFrameDbcBuilder::Build, Script.antt
--   ScriptProcessor::Process on a Lua stack, Task.antt ProcessCanbusWorkTask, and Scheduler.antt
--   CanbusSchedulerService: CreateTask, Start, Restart, Pause and Resume.
-- Controllers: app/src/controllers.
--   Display.antt is DisplayController with a trace of the frame buffer's calls, which Display/Watch.antt
--   watches for calls that are out of place, and Display/View.antt reads as what is on the screen, next
--   to a specification without calls. Logging.antt is
--   LoggingController: its constructor, start, stop and CAN command.
-- DeviceTree: app/src/subsys/device_tree.
--   Fs.antt is DtFs in a build with CONFIG_SDMMC_SUBSYS, with the detection of the SD card; Devices.antt
--   the other Dt classes and DtConfigurator::Initialize.
-- Startup: app/src/main.cpp.
--   Main.antt is main over the modules above: the trace of its calls on all objects (Calls.antt,
--   Steps.antt), the statics of the device tree, the display controller, the HTTP server's handlers and
--   the CAN scheduler. The outcome of every call on an object of the core module is a parameter that
--   may depend on the calls before it. Canbus.antt, Sensors.antt and Logging.antt are the values that
--   the Setup functions write.
-- Animations: app/src/views/animations.
--   WaveLines.antt, Particles.antt, DotPath.antt and TaperedWave.antt draw with floats that are abstract
--   (Floats.antt). A conversion to an integer type that does not have the value is a fault.
--
-- The parts meet where the controllers of Logging and Http use the display and the services, where a
-- CAN task builds a frame, lets the Lua processor change it and sends it, and in main, which makes and
-- starts all of them.
--
-- Bounds and fuel: WifiApService::Initialize polls at most 10 times, as the code does. The request of
-- a card's address runs on fuel, for a card that answers with an address other than zero within that
-- many rounds. The wait in Pause runs on fuel too: enough of it is the longest time in milliseconds
-- that a running work item takes to stop. A decimal text (`to_string`) has fuel for as many digits as
-- the number's value plus one. All other loops recurse on their data; a run of main ends where its
-- endless loop begins.
--
-- Assumptions: getters of the collaborators do not change the world; sums of size_t and the `int`
-- arithmetic of the layout and of the line lengths stay in range; the configuration is not replaced
-- while Start walks over it.
--
-- Not modelled: log output, but for that of the Wi-Fi events, the contents of the web pages, the
-- tests of the submodule, and the Python log parser.
pub mod Common
pub mod Canbus
pub mod Controllers
pub mod Http
pub mod DeviceTree
pub mod Animations
pub mod Startup
