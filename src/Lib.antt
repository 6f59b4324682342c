-- ===== src/Lib.antt =====
-- up-cpp, the C++ library of uProtocol: models of its data model, its transport base class and its
-- communication layer, and proofs about them.
--
-- Parts and files:
-- The messages (Proto). The code that protoc generates and the protobuf library are not in the
-- repository. UUri, UUID, UAttributes, UMessage and UStatus are records of the fields that the
-- code reads or writes; generated enumeration tests and bounds and MessageDifferencer::Equals are
-- the parameter `Protobuf`, and `IsDocumented` states the behaviour that theorems rely on.
-- The validators of src/datamodel/validator/ (Validator.Uri, Validator.Uuid, Validator.Message),
-- with one function for each of the code's and the reasons as data types (Validator.Reasons).
-- The constants of include/up-cpp/datamodel/constants/UuidConstants.h (UuidConstants); a mask is the
-- number of its bits.
-- The builders of src/datamodel/builder/: Builder.Uuid (UuidBuilder), Builder.Payload (Payload),
-- Builder.Message (UMessageBuilder). A setter is a function from a builder to a builder or an
-- exception. Builder.Message.Setters gathers the setters into one operation and says what a chain
-- of them keeps; Builder.Message.Chains follows a builder from a factory to a checked message.
-- The serializers of src/datamodel/serializer/: Serializer.Uri (UUri.cpp), Serializer.Bytes and
-- Serializer.Text (AsBytes and AsString of Uuid.cpp), over lists of bytes.
-- include/up-cpp/utils/Expected.h (Utils.Expected).
-- src/transport/UTransport.cpp (Transport). A world holds the calls that left the library, in
-- their order, and the number of the next connection (Transport.World); an operation takes the
-- world and returns a result or an exception, and the world that it leaves. What a concrete
-- transport implements answers by the calls made so far.
-- src/communication/: Communication.Publisher, NotificationSource, NotificationSink, Subscriber,
-- and RpcServer, whose `serve` is the listener that `connect` registers. Communication.Senders,
-- Communication.Notifications, Communication.Listeners and Communication.RpcServer.Replies hold
-- the proofs about them.
-- RpcClient.cpp: Communication.RpcClient is the client; Communication.RpcExpiry is the state that
-- its requests share with the transport's threads and the expiry worker, and the operations on it.
-- Communication.RpcExpiry.Steps has the threads as steps, over which Once, Answered and Severed have
-- invariants; Communication.RpcClient.Refines says that a call of invokeMethod is such steps.
-- Communication.RpcExpiry.Waking has the worker's thread and those that wake or stop it, down to the
-- mutex and the condition variable. Communication.RoundTrip is about a call from a client's
-- invokeMethod over a server's listener back to the client's callback. The
-- std::push_heap and std::pop_heap behind the queue are the parameter `HeapAlgorithms`
-- (Communication.RpcExpiry.Heap), whose laws are the standard's, for heaps only;
-- Communication.RpcExpiry.SortedQueue fills it.
-- A scrub may leave a queue that is no heap; what the standard leaves undefined is then a push or a
-- pop, about which the parameter has no law. The listeners whose handles are destroyed with a request
-- that leaves the queue are in the state's `dropped`; Communication.RpcClient's `destroy_in` has the
-- cleanups that the transport is then called with. Which handles `erase` destroys is as libstdc++'s
-- `remove_if` leaves them.
-- include/up-cpp/utils/CallbackConnection.h: Utils.CallbackConnection has the handles between calls,
-- Utils.CallbackConnection.Calls the threads of one connection, down to the mutex and the condition
-- variable. The other modules use a connection's number, and whether it is held or connected.
-- Communication.RpcClient.ToProto has the invokeMethodToProto templates of RpcClient.h.
-- src/utils/ProtoConverter.cpp and include/up-cpp/utils/ProtoConverter.h (Utils.ProtoConverter), over
-- the parameter `Codec`: what the protobuf library does with a message type.
-- src/client/usubscription/v3/: Client.UriBuilder (USubscriptionUUriBuilder.cpp), over the options of
-- the generated service descriptor; Client.RequestBuilder; Client.Subscription
-- (RpcClientUSubscription.cpp), whose operations go through Communication.RpcClient.ToProto;
-- Client.Consumer (Consumer.cpp), which holds a notification sink, an RPC client with the handle of
-- its last request, and a subscriber. Its methods may throw with their fields changed
-- (Client.Consumer.Effects).
-- Samples holds concrete values for the tests.
--
-- Conventions: numbers are natural numbers, and arithmetic that may wrap says so (`% 2 ^ 64`). Times
-- are integers in nanoseconds, the period of std::chrono::system_clock in libstdc++. Every reading
-- of the clock and every random draw is an argument, in the order in which the code makes them, so
-- a theorem may say what happens if time passes between two readings. Exceptions are values
-- (Exception); one that quotes a validator's message holds the reason instead. The only loops that
-- are not over a list print the hexadecimal digits of a number, on fuel for the eight digits of 32
-- bits or the sixteen of 64.
--
-- The rounds of the expiry worker take one reading of the clock each; as many rounds as there are
-- requests are enough for one reading.
--
-- Callbacks that throw: Communication.RpcExpiry.Throwing has what std::call_once makes of them, and a
-- step of Utils.CallbackConnection.Calls how the exception leaves operator(). The steps of
-- Communication.RpcExpiry.Steps are those of callbacks that return.
--
-- Not modelled: the way of a callback's exception through the code of the transport or of the expiry
-- worker, whose thread it ends.
pub mod Common
pub mod Proto
pub mod UuidConstants
pub mod Exception
pub mod Validator
pub mod Builder
pub mod Serializer
pub mod Utils
pub mod Transport
pub mod Communication
pub mod Client
pub mod Samples
