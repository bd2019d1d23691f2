-- ===== src/Lib.antt =====
-- The IPMI daemon of OpenBMC (phosphor-host-ipmid): the core that turns the bytes of a request into
-- the bytes of a response, and the parts behind it whose work is computing.
--
-- A request comes in as bytes with a context (network function, command, privilege). The dispatch
-- (ipmid-new.cpp) passes it through the filters, finds the handler that was registered for its
-- command, checks the privilege and calls it; the handler takes its arguments from the payload
-- (include/ipmid/message/unpack.hpp) and packs its results (include/ipmid/message/pack.hpp).
-- Behind the handlers are components such as the watchdog commands, the table of users and the FRU
-- writer.
--
-- The files, and what they model:
--   Message/Payload  struct Payload of include/ipmid/message.hpp, with the stream of bits: drain,
--                    append, appendBits, prepend, pop, fillBits, popBits, discardBits, reset,
--                    fullyUnpacked. The loops run on fuel: drain takes a bit at least in each round
--                    and fillBits adds eight, so as many rounds as there are bits are enough.
--   Message/Pack     every PackSingle of include/ipmid/message/pack.hpp and Payload::pack
--   Message/Unpack   UnpackSingle of include/ipmid/message/unpack.hpp and Payload::unpack, less the
--                    std::vector of other items than bytes. `fault` is a read past the end.
--   Message/Layout   the specification: the bits that stand for a message of fixed-width fields;
--                    Message/RoundTrip, Message/Errors and Message/Text hold the theorems.
--   Dispatch         ipmid-new.cpp: Reservation (reserveSel, checkSELReservation,
--                    cancelSELReservation), Registry (registerHandler, registerGroupHandler,
--                    registerOemHandler), Filters (registerFilter, filterIpmiCommand), Execute
--                    (executeIpmiCommandCommon, executeIpmiGroupCommand, executeIpmiOemCommand,
--                    executeIpmiCommand), Handler (IpmiHandler::executeCallback of
--                    include/ipmid/handler.hpp, Request::unpack). A handler is a function from a
--                    request to a response, a filter one to a completion code; a callback of an
--                    IpmiHandler takes the values that were unpacked. A hash map is an association
--                    list.
--   Fru              ipmi_fru_info_area.cpp, one function for each of its functions. A string is a
--                    list of bytes; Fru/Stoi is std::stoi. timeStringToRaw depends on the locale and
--                    the time zone and is a parameter.
--   Watchdog         app/watchdog_service.cpp (Service) and app/watchdog.cpp (Commands). The D-Bus is
--                    a parameter: a function from its state and a call to a reply and the next state,
--                    errors and exceptions included. Commands/Lawful states what a watchdog on the
--                    D-Bus promises, for the theorem that needs it.
--   User             class UserAccess of user_channel/user_mgmt.cpp: Privilege (the privileges), Table
--                    (UsersTbl and the loops over it), Store (the objects of the JSON file), Access
--                    (readUserData, writeUserData, checkAndReloadUserData, addUserEntry,
--                    deleteUserIndex), Names (isValidUserName and the properties on the D-Bus),
--                    Commands (setUserName and the other operations of the commands), Events
--                    (userUpdateHelper, userUpdatedSignalHandler), Sync (cacheUserDataFile); Layer is
--                    user_channel/user_layer.cpp, Handlers and Passwords are the handlers of
--                    user_channel/usercommands.cpp, which read the table of channels too. The
--                    system, a parameter, is the file with the text conversion of nlohmann::json, the
--                    user manager on the D-Bus, and PAM.
--   Channel          class ChannelConfig of user_channel/channel_mgmt.cpp: Names (the names in the JSON
--                    files), Data (its members and the system, a parameter: the files, the D-Bus and
--                    the packet filter), Store (readChannelVolatileData, writeChannelVolatileData,
--                    checkAndReloadVolatileData), Config (loadChannelConfig), Access
--                    (getChannelAccessData, setChannelAccessData and the other accessors), Persist
--                    (setChannelAccessPersistData, with the packet filter), Sync
--                    (processChAccessPropChange, syncNetworkChannelConfig, initChannelPersistData).
--                    Commands and Info are the handlers of user_channel/channelcommands.cpp.
--                    The methods for the persistent data are those for the volatile data at another
--                    `Kind`. `fault` is an access past the 16 channels.
--   Passwd           class PasswdMgr of user_channel/passwd_mgr.cpp: the map of passwords, and the text
--                    of the password file: initPasswordMap, checkAndReload, getPasswdByUserName,
--                    updateUserEntry, updatePasswdSpecialFile. The encrypted file is a parameter.
--                    `none` of an update is an access past the end of the buffer of the new text.
--   HostCommand      class Manager of host-cmd-manager.cpp: getNextCommand, hostTimeout, clearQueue,
--                    checkQueueAndAlertHost, execute, clearQueueOnPowerOn, sendAttention. Whether the
--                    timer starts and the signal is delivered is given for each step.
--   Whitelist        WhitelistFilter of whitelist-filter.cpp: filterMessage, with the loop of
--                    std::lower_bound on as many rounds as the table is long, and the restriction
--                    mode. The generated table is a parameter.
--   Prelude          lists over native numbers, Boolean tests, bits and bytes.
--   Examples         the theorems at concrete values.
--
-- A w-bit integer is a number with its wrap-around written out; the bit stream is 72 bits wide. The
-- sizes of lists are not bounded by size_t, but where the code subtracts from one (unpacking a
-- string) the wrap-around at 2 ^ 64 is there. The mask of a fixed_uint_t is shifted as an int in
-- unpack.hpp, so the theorems on packed messages take such fields up to 30 bits only.
--
-- Not modelled: the D-Bus entry points, the loading of providers and main of ipmid-new.cpp, which
-- are input and output; the coroutines, since a handler's call is one step; the handlers that only
-- forward to the D-Bus (sensors, storage, chassis, transport, DCMI); encryption of the password file.
pub mod Channel
pub mod Codes
pub mod Dispatch
pub mod Examples
pub mod Fru
pub mod HostCommand
pub mod Message
pub mod Passwd
pub mod Prelude
pub mod User
pub mod Watchdog
pub mod Whitelist
