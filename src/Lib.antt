-- ===== src/Lib.antt =====
-- ecmc_plugin_socketcan: a plugin of the motion controller ecmc that lets EPICS read and write the
-- objects of CANopen nodes over a Linux CAN socket. All paths are below
-- ecmc_plugin_socketcan/ecmc_plugin_socketcanApp/src.
--
-- ecmc loads the plugin with a configuration string. The realtime thread of ecmc then calls execute
-- on every device, a read thread hands each received frame to newRxFrame, asyn calls write values,
-- a connect thread opens the socket when it is asked to, shell commands add devices and objects,
-- and a write thread sends what the others queue. Each method is one step of the model, and a run is
-- a list of such steps. Only the write buffer has a mutex around its methods; what that leaves out
-- elsewhere stands under 'Not modelled'.
--
-- - Common: lists and tests on native numbers, int (Int), byte order (Bytes), C strings (CString),
--   calls that can throw (Attempt), and memcpy and memset over byte lists (Memory), whose Outcome
--   is a fault if an access leaves a block.
-- - Frame: struct can_frame and ecmcCANOpenSDO::frameEqual. Defs: the enumerations of
--   ecmcSocketCANDefs.h.
-- - WriteBuffer: ecmcSocketCANWriteBuffer.{h,cpp}. The buffers, the two pointers to them, and
--   doWriteWorker as worker_step on where the thread stands. Invariant, Order and Errors treat its
--   operations, and Run their interleavings. The socket's write() is the parameter Socket.
-- - Sink: what the objects use of the write buffer, as an interface, with the buffer as instance.
--   The modules Sends, here and below Pdo, Sdo, Device and SocketCan, treat what a call leaves there.
-- - Printing: printBuffer of ecmcCANOpenPDO.cpp, which is that of ecmcCANOpenSDO.cpp too, and is called
--   in debug mode. A valid object has an even size if it is in debug mode, since printBuffer leaves the
--   block of an odd one.
-- - Pdo: ecmcCANOpenPDO.{h,cpp}. Values treats the data, Debug the printing,
--   Cycle the timeout and the write cycle.
-- - SdoFrames, Sdo: ecmcCANOpenSDO.{h,cpp}. SdoFrames has the prepared frames of the constructor,
--   Sdo the state, and Sdo/Methods one function per method, or per part of a long method. Upload
--   and Download are whole transfers, Slave is a slave that decodes the segments sent, Timeout
--   treats the busy counter, and Run the calls in any order.
-- - Device: ecmcCANOpenDevice.{h,cpp}: a node with its objects. Lock and Balance (below Sdo) treat
--   the lock that a device's SDOs share, Asyn the values written to its objects, Run the runs of a
--   device, Nmt the node's state, Identity what no call changes, and Master is
--   ecmcCANOpenMaster.{h,cpp}.
-- - Config: ecmcSocketCAN::parseConfigStr. Options treats strings of accepted options, Ends the
--   loop, and Connect the option CONNECT=.
-- - SocketCan: ecmcSocketCAN.{h,cpp}. SocketCan has the state, the constructor and the connection,
--   Cycle the realtime and the read thread, Table the devices, Asyn the values written to objects,
--   and Steps all of these as the events of a run. Find, Adds, Keeps, Connect, Invariant and
--   Run treat them. Refinement relates runs of the plugin to runs of the write buffer, with the
--   calls that each event makes in Explains and SameBuffer.
-- - Wrap: ecmcSocketCANWrap.cpp. Wrap has the functions around the one object, Shell the four shell
--   commands, Register their tables, and Arguments relates the two. Plugin:
--   ecmcPluginSocketCAN.c, with its life in Life, the table pluginDataDef in Register, and the calls
--   that ecmc makes through it in Calls and Run.
-- - Asyn: initAsyn of ecmcCANOpenSDO, ecmcCANOpenPDO, ecmcCANOpenDevice and ecmcSocketCAN. Asyn has
--   the calls of the asyn port, whose answers are the parameter Port, Names the names of the
--   parameters, with to_string, and Init the four methods. Decimal and Unique treat the names, Items
--   and Outcomes what an object leaves in the port, and Writers the constructors of a plugin.
--   Commands joins initAsyn to the commands of SocketCan/Table; Safe, Run, Added and Status treat
--   them.
-- - ByteToArray: ecmcByteToArrayAsub.cpp, the routine of an EPICS aSub record.
-- - Tests, below each component: concrete runs.
--
-- Numbers: sums of the source that are uint32_t wrap, and a negative int is written as its bit
-- pattern where the code can reach one. The shell commands take ints, as integers; behind their
-- tests times are not negative. The counters of execute calls are plain numbers: products of a
-- counter and a sample time are taken not to overflow an int. An object's size is below 2 ^ 31. The
-- loop over the options of the configuration runs on fuel, one round more than the string has bytes,
-- which is shown to be enough; all other loops are over lists or counts.
--
-- Not modelled: printouts other than printBuffer, help texts, and destructors that only free
-- memory. In the runs of a device and of the plugin the constructors are taken to succeed in
-- initAsyn, and the values last published stand for the asyn parameters; Asyn/Run has the runs
-- with a port that may refuse, without values written over asyn: the port keeps the pointer to an
-- object whose second item was refused. One call of writeBuffer is one step, so that a reset of
-- the error sum between two write() calls of the same batch is not considered; and a call of
-- execute, or a frame handed to all devices, is one step of the object, although ecmcSocketCAN and
-- ecmcCANOpenDevice have no mutex, and the mutexes of an SDO and a PDO guard single copies of
-- their data and the test of the lock only: what two threads do to one object inside such a step,
-- interleaved or as a data race, is not considered. What socket(), bind(), read() and the creation
-- of a thread answer is given with each call, and the conversions of a double, iocshRegister and
-- how ecmc calls a PLC function are parameters.
pub mod Common
pub mod Defs
pub mod Frame
pub mod WriteBuffer
pub mod Sink
pub mod Pdo
pub mod SdoFrames
pub mod Sdo
pub mod Device
pub mod ByteToArray
pub mod Config
pub mod SocketCan
pub mod Wrap
pub mod Plugin
pub mod Printing
pub mod Asyn
