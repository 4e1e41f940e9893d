-- ===== src/Lib.antt =====
-- Verification of nlcpp, the C++ wrapper around libnl.
--
-- The program and its parts.  The library wraps libnl's reference-counted objects in classes
-- (src/netlink.cpp, src/message.cpp, src/route.cpp), translates the error codes of libnl into
-- exceptions (src/exception.cpp), sends messages and waits for their answers (Socket of
-- src/netlink.cpp), and builds on this the requests of rtnetlink (RouteSocket of src/route.cpp) and
-- of two generic netlink families (src/ctrl.cpp, src/nl80211.cpp). src/test-tool.cpp is a program that
-- runs such requests from its arguments or from lines of input.
--
-- Which file models what.
--   Common, Common/*      helpers: tests on ℕ, lists, the C++ `int` (Int), and what a call does to a
--                         state (Run): it returns, throws, or is undefined.
--   Exception             Exception::throwCode and the constructors of the exception classes.
--   Objects, Objects/*    libnl's objects as a store of reference counts (Defs), the accounting of
--                         counts to their owners (Counting, Rules, Handle), and what a class of owners
--                         promises, with histories of the calls of its members (Class).
--   Route/RouteAddress, Route/RouteLink, Route/RouteEntry
--                         constructors, moves and destructors of RouteAddress, RouteLink and Route.
--                         Their Lifetime files and Ownership are about the promise of Objects/Class.
--   Route/Fields          the forms of getters and setters that the classes of route.cpp share.
--   Route/Attributes      getters and setters of RouteAddress: Setting is about the addresses, Time
--                         about the lifetimes.
--   Route/RouteLink/Attributes, Route/RouteEntry/Attributes, Route/NextHop/Attributes
--                         those of RouteLink, Route and NextHop.
--   Route/NextHop, Route/NextHops
--                         the life of NextHop objects, and Route::add and Route::nexthops: Ownership
--                         is about the first, Listing about the second.
--   Route/Watch           RouteCacheManager::addressCache, RouteAddressCache::watch and what libnl
--                         calls: Specification says what a cache owes to its watchers, Refinement is
--                         about histories of calls, Lifecycle about the first and the last one.
--   Route/RouteSocket     RouteSocket::add, del and change.
--   Route/Caches          RouteCacheManager::linkCache and routeCache.
--   Route/TypedCache      TypedCache::Iterator, begin, end and Filtered, on pointers (Iteration) and as
--                         objects that own references (Iterators).
--   Netlink/Address, Netlink/Cache, Message
--                         constructors, copies, moves and destructors of Address, Cache and Message,
--                         and the accessors of Address (Netlink/Address/Attributes).
--   Message/Put           the overloads of Message::put and its relatives.
--   Netlink/Socket        the callbacks of Socket and both sendMessageSync (Delivery and Sync), its
--                         constructor and destructor (Open), and the calls of Socket, GenericSocket
--                         and CacheManager that only check a result (Calls).
--   Netlink/CacheManager  the objects of CacheManager: Lifetime is about one, Copies about two that
--                         share a manager.
--   Generic/Ctrl, Generic/Nl80211
--                         Ctrl::getFamily, getFamilies, parseGenericFamily, and Nl80211::getInterface,
--                         getInterfaces, parseInterfaceConfiguration. Replies joins these with
--                         sendMessageSync.
--   Generic/Requests      the messages that these functions build and send: Sending and Sent are about
--                         any request, Families, Interfaces and Resolved about those of each class.
--   Generic/Messages      GenericSocket::sendMessageSync and onValidMessage.
--   Generic/Header        GenericNetlinkMessage.
--   Flags                 GenericFlags of include/nlcpp/utils.h and src/utils.inl.
--   TestTool/Line, TestTool/Args, TestTool/Main
--                         the split of an input line, parseLinkArgs and parseAddressArgs, and the
--                         dispatch of commands in `main`.
--   TestTool/State, TestTool/Links, TestTool/Addresses, TestTool/Watches
--                         the commands linkList, linkAdd, linkDel, addressList, addressAdd, addressDel
--                         and addressWatch, and the loop of `main` over its descriptors.
--   TestTool/Program      the table of commands on the state of all of them; Listing is about a whole
--                         round of the loop in `main`.
--   Tests, Tests/*        concrete instances and inputs.
--
-- How state is modelled.  A member function of a wrapper class is a function on a world that holds
-- the pointers of the wrappers and the counts of libnl's objects. The calls of libnl that allocate
-- and clone may fail, as a parameter of the world decides. A socket is a record of the members that
-- its callbacks change. What libnl delivers is an argument: one list of callback calls for each call
-- of nl_recvmsgs, so that a theorem about all lists is about every order of deliveries. The
-- callbacks of address caches stand on a heap of vectors, with the addresses that libnl has kept. A
-- command of the test tool is a function on the lines printed so far and the state of libnl; `exit`
-- ends it as an exception does that nothing catches.
--
-- Parameters.  libnl and the kernel are not under this repository: their functions, the numbers of
-- their headers and their error texts are parameters, and what the code relies on is a hypothesis,
-- such as that the error codes differ (IsErrno) or that a getter reads what its setter stored
-- (IsStored).
--
-- Bounds and fuel.  The loop over the flags of a set is given 32 rounds, one for each of the 31 lower
-- flags and one to end in; any number of them serves to ask whether it ends at all. A loop over a
-- cache has more fuel than the cache has objects, which is one round for each and one for the end. A
-- loop that waits for an answer has as many rounds as there are deliveries, and `none` stands for
-- "still waiting".
-- Reference counts are unbounded numbers. The int and uint32_t conversions are written out.
--
-- Not modelled.  poll and getline (I/O) and the mutex of printLine; callbacks that watch the cache
-- that calls them; exceptions that leave a callback through libnl's C frames, which count as
-- undefined in `Route::nexthops`; what an exception that nothing catches destroys.
pub mod Common
pub mod Exception
pub mod Objects
pub mod Route
pub mod Netlink
pub mod Message
pub mod Generic
pub mod Flags
pub mod TestTool
mod Tests
