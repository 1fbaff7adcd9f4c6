-- ===== src/Lib.antt =====
-- A verification of rmw_iceoryx2_cxx, the implementation of the ROS 2 middleware interface (rmw) over
-- iceoryx2. Paths below are from the repository's root; P stands for rmw_iceoryx2_cxx, and impl/ for
-- P/include/rmw_iceoryx2_cxx/impl/ with P/src/impl/.
--
-- The program has two layers. The functions of the rmw interface, P/src/rmw, check their arguments,
-- find the runtime object behind a handle and call it. The runtime classes, P/src/impl/runtime and
-- P/include/rmw_iceoryx2_cxx/impl/runtime, talk to iceoryx2: a publisher and a subscriber keep the
-- samples that the application holds in a sample registry, and a wait set maps the entries of the
-- arrays of a wait to listeners that it stores.
--
-- Files, in the order of use:
--   Common     names shared by all, lists over the native numbers, and the monad of methods that may
--              fail (`Exec`): a result beside the state, since what was written before a failure
--              stays written.
--   Errors     the enumerations of impl/common/error.hpp, and the codes of rmw_ret_t; RMW_RET_OK is
--              the constructor `ok`.
--   Creation   impl/common/create.hpp over constructors as functions.
--   Memory     impl/common/allocator.hpp, and create_in_place at an address. Balance
--              says what the allocator documents; Builds has the rules for code that undoes what it did.
--   OrderedSet std::set, as an ascending list without repetition; Laws says that a set is given by its
--              elements.
--   Names      P/src/impl/common/names.cpp, and the parsers of P/src/rmw/graph.cpp. Order has the
--              comparisons of the two sets that graph.cpp collects.
--   Message    P/src/impl/message/introspection.cpp: is_pod and the sizes of messages, over the tree of
--              a type's members. SelfContained has the inductive description that is_pod decides.
--   Registry   impl/runtime/sample_registry.hpp: store, retrieve, release.
--   Publisher  impl/runtime/publisher: loan, return_loan, publish_loan, publish_copy, the constructor.
--              Ledger has the abstract view of its loans, three multisets of samples with the moves
--              between them, over a middleware that notes what it lends and gets back.
--   Subscriber impl/runtime/subscriber: take_copy, take_loan, return_loan, the constructor.
--   WaitSet    impl/runtime/waitset: the listeners and the mapping (map, unmap_all, get_storage_index);
--              Sharing and Indices are on entries that share a service. Waiting has wait with its
--              attachments, its callback and their end: Exact is on what it gives, Attaching, Mapped and
--              Wakes on a wait that is woken, over what it relies on in iceoryx2, which is Events.
--   Runtime    impl/runtime/context, guard_condition and node, impl/middleware/iceoryx2, and
--              rmw_trigger_guard_condition. Access has the instance of impl/middleware/iceoryx2 as an
--              object, with the access to its nodes and service_builder.
--   Rmw        P/src/rmw: Ensure (impl/common/ensure.hpp), Serialize (serialize.cpp), Publish
--              (publisher.cpp) and Take (subscription.cpp), each with Checks, Messages and
--              Outcomes, which describe a success by what it asks of iceoryx2, Wait (rmw_wait of
--              waitset.cpp; Wakes and Shared are on the entries it leaves), Handles (the functions
--              that create and destroy handles, with those of publishers and subscriptions in
--              Endpoints and those of services and clients in Services), Init (init.cpp), Graph
--              (rmw_get_node_names and rmw_get_topic_names_and_types of graph.cpp), Queries (the
--              other functions of graph.cpp), Gid (gid.cpp), Requests (service.cpp and client.cpp
--              on existing handles, event.cpp, qos.cpp and feature.cpp) and Logging (logging.cpp).
--              Exchange is the interface between a publisher and a subscription of one middleware,
--              and Signal that between a guard condition and a wait.
--   Examples   runs of the code over small stand-ins for the libraries.
--
-- A definition has the name of the function that it models, a record that of the class or struct
-- with the members as fields. A method is a function from the object's state; `Session` is one
-- runtime object with the world of the middleware. What the program calls of iceoryx2, of rosidl and
-- of the allocator are parameters: a record of functions on an abstract world (PublisherPort,
-- SubscriberPort, WaitSetPort, MemoryPort, RcutilsPort), each from the world to its answer and the
-- next world. A pointer that may be null is an `Option`; the object behind a handle's `data` is the
-- one of the session. The texts of errors and logs are left out, and two objects that share memory
-- other than by the handles are not modelled.
--
-- Bounds. Numbers are natural numbers. The sum of a serialized size wraps at 2^64 as in the source;
-- addresses, indices and sizes are otherwise compared and passed on only. A timeout is its number of
-- nanoseconds; a duration that saturates in the source is not modelled. The loops go over lists or
-- over the tree of a type's members; only the digits of a number need fuel, ten for the numbers of
-- 32 bits that are printed. The callback of a wait runs over the list of ids that iceoryx2 reports,
-- in its order, until it stops.
--
-- In the graph queries an access that C++ leaves undefined is the failure `undefined_behaviour`, so
-- that a theorem can say where it happens and where not. The memory of a new
-- node handle holds anything until its fields are set, which is an argument of rmw_create_node.
--
-- The theorems on what two objects exchange, and on waits that are woken, rest on what iceoryx2
-- documents, which is stated as a record of laws over the ports: Channel, Signals and Events. A law is
-- about one call of iceoryx2, and the examples have an instance of each.
--
-- Not modelled: the texts of errors and logs; the creation lock and the type aliases of
-- impl/middleware/iceoryx2, which have no content at run time; the tests and the demonstration
-- programs.
pub mod Common
pub mod Errors
pub mod Creation
pub mod Memory
pub mod Names
pub mod Message
pub mod OrderedSet
pub mod Registry
pub mod Publisher
pub mod Subscriber
pub mod WaitSet
pub mod Runtime
pub mod Rmw
pub mod Examples
