-- ===== src/Lib.antt =====
-- A model of the core of PulseUnlock's desktop side (pcbu-desktop): how a phone unlocks a computer.
--
-- The unlock handler (common/src/handler/UnlockHandler.cpp) starts one connection for each way to reach a
-- phone and merges their results. A connection (common/src/connection/unlock/BaseUnlockConnection.cpp)
-- exchanges packets with a phone over a stream (common/src/connection/BaseConnection.cpp and stream/), whose
-- payloads are encrypted with the key of a paired device (common/src/utils/CryptUtils.cpp). The devices are
-- kept by common/src/storage/PairedDevicesStorage.cpp. The installer enters the module into PAM's files
-- (common_desktop/src/installer/helpers/PAMHelper.cpp), privileged work goes over length-prefixed messages
-- (common/src/shell/IPCHelper.cpp), and the cli parses its arguments with cli/src/cli/CommandLine.cpp.
--
--   Base        names of the libraries, Boolean tests, lists and texts
--   Text        common/src/utils/StringUtils.cpp: Replace, ShellQuote, Split, Trim, Truncate
--   Packet      BaseConnection's ReadPacket, ReadData and WritePacket; ConnectionStream's Write and Flush
--   Device      common/src/storage/PairingMethod.h and the structs of PairedDevicesStorage.h
--   Crypt       CryptUtils' encrypted packets and texts over OpenSSL
--   CommandLine the parser of the cli
--   Unlock      BaseUnlockConnection: Handlers is OnPacketReceived and what it calls, Flow is PerformAuthFlow
--   Handler     UnlockHandler: PrintStatus and the merge of GetResult; Server is RunServer's loop
--   Storage     PairedDevicesStorage: Load, SaveDevices, the cache and the operations on devices
--   Ipc         IPCHelper's ReadMessage and WriteMessage
--   Pam         PAMHelper: pending changes, entries and Commit
--   Version     common/src/utils/AppInfo.cpp: CompareVersion
--   Pairing     common/src/connection/pairing/PairingServer.cpp; Handling is HandleClient
--   Login       natives/pcbu-auth/src/main.cpp; Module is natives/pam_pulseunlock/src/pam_auth.cpp, which runs it
--   Socket      common/src/connection/stream/SocketStream.cpp, whose turns are the arrivals of Packet
--   Cloud       common/src/utils/RestClient.cpp and CloudUnlockClient.cpp
--   Tcp         TCPUnlockClient.cpp of common/src/connection/unlock/clients, up to the auth flow
--   Settings    common/src/storage/AppSettings.cpp; Config is the config command of
--               cli/src/commands/SettingsCommands.cpp
--   Askpass     natives/pcbu-ssh-askpass/src: SshPrompt.cpp; Run is main.cpp and RootGuard.cpp
--   Env         common_desktop/src/installer/helpers/EnvHelper.cpp
--   SshServers  common_desktop/src/ssh/SshServerHelper.cpp
--   DeviceCommands the same removals and FindDevice in cli/src/commands/DeviceCommands.cpp
--
-- The PAM module runs pcbu_auth, which asks the unlock handler; the handler's connections read packets from
-- a socket or from the cloud's relay, and compare them with what a pairing has stored. The askpass program asks
-- the same handler for the key of a server's password.
--
-- A std::string or a buffer is its list of bytes, and a number of w bits is a natural number with its wrap
-- written out. A handler is a function from a state to a state. Threads that share a state are
-- sequences of steps in any order: a step is what runs under one lock. What comes from outside is an argument:
-- the arrivals of a stream, the answers of writes, clocks, random bytes, and the turns of a loop. The libraries
-- (OpenSSL, Boost's hex coder, the JSON library) are records of functions, and what a theorem
-- needs of them is a hypothesis. A loop that waits for a peer runs on the list of arrivals or turns and gives
-- no result while the list is used up; the loops of Replace and Split run on the length of their text, which is
-- enough because each round consumes a byte of it.
--
-- A retrying loop runs on the list of its attempts, of which one more than the retries is enough, and decimal
-- numbers of 32 bits are printed with fuel for ten digits.
--
-- Not modelled: Bluetooth, the servers that accept phones, broadcasts, the relay's web socket, shells and
-- services, the user interface, and the plug-ins of Windows and macOS, which are calls of the system or of
-- third-party libraries with little logic of their own. Where the source differs by platform, the model is
-- that of Linux.
pub mod Base
pub mod Text
pub mod Packet
pub mod Device
pub mod Crypt
pub mod CommandLine
pub mod Unlock
pub mod Version
pub mod Handler
pub mod Storage
pub mod Ipc
pub mod Pam
pub mod Pairing
pub mod Login
pub mod Socket
pub mod Cloud
pub mod Tcp
pub mod Settings
pub mod Askpass
pub mod Env
pub mod SshServers
pub mod DeviceCommands
