-- ===== src/Lib.antt =====
-- This library models vic-cloudless, the cloud process and the gateway of the Vector robot, and
-- proves what makes its parts correct. Paths are from the repository's root.
--
-- * Voice models internal/voice/process.go, the cloud process between the microphone, the AI and
--   the speech streams: Voice.Locale is getLanguage, Voice.Messages what is exchanged,
--   Voice.Process the loop of Run, one step for each case of its select. A stream is the number
--   of its opening, so that the comparison of the stream pointers is one of numbers.
--   Voice.Process.Streams and Voice.Process.Answers hold the theorems.
-- * Stream models internal/voice/stream: the samples of AddSamples, the bufferRoutine, and how
--   the routine over the audio in init and cancelResponse answer the receiver; responseRoutine
--   and sendAudio, which init leaves in comments, are not modelled. The buffer's select is a
--   schedule of turns.
-- * Vtr models internal/voice/vtr, voice to intent: Vtr.Vad is DetectEndOfSpeech, Vtr.Match is
--   ProcessTextAll, Vtr.Params is ParamChecker, Vtr.Numbers is words2num, Vtr.Weather is
--   FetchWeatherNow and the second half of getWeather, Vtr.Texts the English column of the texts.
-- * Gateway models parts of cloud: Gateway.Hashes is CompareHashAndToken (internal/token),
--   Gateway.Tokens the ClientTokenManager, Gateway.Feed the audio and camera feeds of
--   message_handler.go, Gateway.Proxy the BLE proxy, Gateway.Listeners the EngineProtoIpcManager
--   with its channels by tag.
-- * Gateway.Tokens.Fetch is the exchange of UpdateTokens with the jdocs process. Gateway.Faces is
--   DisplayFaceImageRGB, Gateway.Connections the primary connection, the filters and EventStream,
--   Gateway.Behavior the control of behavior, Gateway.Update the status of an update,
--   Gateway.NavMap the feed of the map, Gateway.Animations the lists of animations,
--   Gateway.Commands the commands that become CLAD messages, with the handlers that wait for an
--   answer in Gateway.Commands.Answers, Gateway.Rpc the calls that are passed to the engine as
--   protobuf messages, with a table of their handlers in Gateway.Rpc.Handlers,
--   Gateway.Rpc.Actions and Gateway.Rpc.Onboarding, SayText and CheckCloudConnection in
--   Gateway.Rpc.Speech, pictures and the detection of markers in Gateway.Rpc.Photos, and the
--   audio that a client plays in Gateway.Rpc.Playback, all of cloud/message_handler.go.
--   Gateway.Events is the conversion of the engine's CLAD messages to events, and
--   Gateway.Events.Filtered puts it together with the streams. Gateway.Blocks is how the managers
--   of cloud/ipc_manager.go write and read CLAD messages, and Gateway.Switchboard what is done
--   with those of vic-switchboard.
-- * Clad models internal/clad: Clad.Wire and Clad.Lists the bytes of numbers, texts and lists,
--   Clad.Docs the structures of cloud/docs.go as codecs with their laws, Clad.Docs.Messages its
--   unions. Clad.Fields has further fields and Clad.Union the unions of any file, as a tag and
--   the codec of what it announces; Clad.Writable says which values are written whole.
--   Clad.Tokens and Clad.Mic are cloud/token.go and cloud/mic.go, and of gateway: Clad.Shared is
--   shared.go, Clad.Switchboard switchboard.go, Clad.External messageExternalToRobot.go and
--   Clad.Robot messageRobotToExternal.go, each with its structures by subject and its unions in a
--   module of their own.
-- * Jdocs models internal/jdocs: Jdocs.Translate is translate.go, Jdocs.Server the requests and
--   the loop of a connection. Jdocs.Refines says what the process promises for each request.
-- * Ipc models internal/ipc: Ipc.Framing the messages over a stream, Ipc.Multi the routing of
--   named messages, Ipc.Datagram the reader of the datagram server.
-- * Token models internal/token: Token.Identity the provider of the JWT and its file, Token.Queue
--   the requests of the queue, Token.Backoff the retries after PermissionDenied.
--
-- The voice process opens streams of Stream with the size that Voice.Process computes; a stream's
-- calls of its receiver come back to Voice.Process as events. The process of speech in Stream's
-- audio ends with Vtr, whose intent is such an answer. The gateway asks Gateway.Tokens about each
-- client; its updates ask Jdocs over the bytes of Clad, which Gateway.Tokens.OwnOnly puts
-- together. Gateway.Commands writes its commands over Gateway.Blocks and the unions of Clad. The
-- gateway is itself one of the processes that Ipc connects.
--
-- Bounds and fuel. The loop of SplitVAD runs on the length of its buffer, which is enough since
-- each round takes 320 bytes off. Printing a number runs on the number itself. The loop over the
-- chunks of a face runs on the number of chunks, as it does in the source, and the wait of
-- UpdateStatusStream on its ten rounds. All other loops are recursions on a list. Numbers are
-- natural numbers; int16 samples and the 32-bit sums of words2num are bit patterns with the
-- wrap-around written out, the floating-point numbers of messages are patterns of bits too, and
-- the ids of chunks are integers.
--
-- Parameters stand for what is not in the repository: the JSON and base64 decoders, SHA-256, the
-- voice detector, the HTTP client, the regular expressions, the service's answers, the files and
-- services of the robot, the comparison of floating-point quotients, and the scheduler, which
-- chooses the events. In ParamChecker the branches behind the two constants that are false are
-- left out.
--
-- Not modelled: the protobuf messages and the messages of the log collector, the printed forms
-- and accessors of CLAD messages, logging, files and device properties, the connection to the
-- services, the log collector, offboard vision and the start of the processes, which only call
-- libraries; and, for now, the rate limiters and a few handlers of message_handler.go, such as
-- UserAuthentication and CaptureSingleImage.
pub mod Prelude
pub mod Voice
pub mod Stream
pub mod Vtr
pub mod Gateway
pub mod Ipc
pub mod Token
pub mod Clad
pub mod Jdocs
