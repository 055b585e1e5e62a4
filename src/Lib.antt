-- ===== src/Lib.antt =====
-- QuickLogger: a program for running amateur radio and GMRS nets on a terminal, with files sent and
-- received by ZMODEM and SFTP. This library models the parts of it that decide and compute: the
-- transfers of ZMODEM, the paths of the SFTP server, the rules for call signs, frequencies, modes and
-- channels, the rights of users, the commands that other programs run, and the splitting of merged
-- keys.
--
-- The parts and their files (paths from the repository's root):
--   Prelude      shared tests, lists, bytes, splitting, trimming, decimals and bit lemmas; Sort: an
--                insertion sort that stands for std::sort
--   Zmodem       src/zmodem_protocol.cpp. Crc: the two checksums. Frame: what is written
--                (PutEscaped, HexHeader, BinaryHeader, DataSubpacket). Reader: the channel as the
--                list of what its reads give, and Unescaped. HeaderReader: ReadHeader.
--                SubpacketReader: ReadSubpacket. Session: what a sender and a receiver share, the
--                record of a session and the monad that carries it. FileInfo: FileInformation and
--                ParseFileInformation. Receiver: class Receiver. Sender: class Sender up to SendData;
--                Batch: the rest of it and ZmodemSend. Transfer: a file from one to the other.
--   Sftp         src/sftp_paths.cpp (ResolveSftpPath, SftpPathString, IsAllowedImportName,
--                SftpImportsBytesUsed over the list of a folder's files, SftpUploadLimit) and
--                SanitizeFilenameComponent of src/file_export.cpp
--   Callsign     src/callsign_rules.cpp
--   Server       src/server_address.cpp; GuessServerHost asks the system and is a parameter
--   Frequency    src/frequency_rules.cpp. Offset: OffsetProblem. Tone: CTCSS tones. Extract: the
--                frequency inside a longer text
--   Mode         src/mode_rules.cpp
--   Gmrs         src/gmrs_channels.cpp
--   Access       src/access.cpp; what the database holds of a user is a parameter
--   Escape       src/ui/escape_splitter.cpp; the events of FTXUI are a parameter with stated laws
--   Text         src/text_utils.cpp. Typo: TypoDistance, against the least number of edits. NetName:
--                the names of nets compared
--   Keys         src/public_key.cpp. Base64, Data: the fields of a key's data. Sha256. Line: the lines
--                that hold a key
--   Command      src/remote_command.cpp. SplitCommandLine; Parse: ParseRemoteCommand; Answer: the text
--                that a command answers with; SessionImport and NetImport: the classes of those names,
--                and Import what they share; Upload: ImportUpload and DiscardUpload; Export: ListNets,
--                ExportNet and ExportSessions; Run: RunRemoteCommand. Nets: the nets that a command
--                may mean. Store: the interface of the database (src/db/database.cpp), its
--                WriteTransaction, and what src/net_slice.cpp reads of a file. Throwing: calls that
--                may throw. Utc: UtcTime of src/date_utils.cpp
--   Update       src/update_check.cpp, VersionParts and IsNewerVersion; Release: ReleaseVersionFromJson
--   Tests        the theorems at concrete inputs, and runs of the definitions
--
-- How the parts meet: IsAllowedImportName asks SanitizeFilenameComponent and ResolveSftpPath is asked
-- for the file of the name; MoveBadFrequencyToComments asks ExtractAmateurFrequency and the bands;
-- the receiver of ZMODEM reads a header, then subpackets, from one channel, whose state is the list
-- of reads still to come, and the bytes that a sender has written are such a list for a receiver. A
-- remote command is run for a user by Access, means a net by the names that Text compares and a file
-- by the paths of Sftp, and asks the database by Store.
--
-- Conventions. A std::string is the list of its bytes, each a native number; classes of characters
-- are those of the "C" locale. A function that fails with `return false` gives an Option, one that
-- returns -1 for nothing found too. Words of 16 and 32 bits are cut back by `%` where C++ does so.
-- A channel that has no more reads is closed; a read may also be a timeout, at any place. A session
-- fails by `failed` with what the source stores in *error. A clock is asked only whether a moment has
-- passed, and its answers are a list, as are those of the writes: a session is a function of what the
-- channel and the clock will answer. An operation of the database gives the database behind it, or
-- what it threw; no other connection writes while a command runs. The folders of a user are lists of
-- files by their names, and which files can be written is a function.
--
-- Fuel. ReadSubpacket's loop runs on one more than the reads left, and a round takes a read at least.
-- So do the loops of the sessions, each on one more than the reads left when it starts; the loop over
-- a file's blocks runs on one more than the file's bytes. Out of fuel a session is `unfinished`.
-- This fuel only makes the model a function: what ends the loops of the source where the channel goes
-- on without end is their deadline, a look at the clock that finds it passed.
-- KeyDataMatchesType runs on one more than the bytes of the data, and each round passes four at least;
-- Sha256 on the number of blocks.
-- ExtractAmateurFrequency runs on one more than the bytes of the text, and a round passes a byte at
-- least. to_string divides by ten on one more than the number. The other loops are structural.
--
-- Not modelled: the rows of the database and the merging of slices into them, the SSH, SFTP and SCP
-- servers around the rules, the screens, and the network, which are processes, SQL and I/O.
pub mod Prelude
pub mod Zmodem
pub mod Sftp
pub mod Callsign
pub mod Server
pub mod Frequency
pub mod Mode
pub mod Gmrs
pub mod Access
pub mod Escape
pub mod Text
pub mod Keys
pub mod Update
pub mod Command
pub mod Tests
