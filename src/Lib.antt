-- ===== src/Lib.antt =====
-- A model of dce-rust, a routing framework for programmable protocols.
--
-- A request comes with a path or an id. The router (crates/router/src/router.rs) holds a map from
-- paths to apis and a tree of paths for those that have variables; it finds the api, follows its
-- redirects, and hands the arguments in the path to the request. An api (crates/router/src/api.rs)
-- is registered under a path that may end in suffixes. The tree (crates/util/src/atom_tree.rs) is
-- a general one of shared nodes.
--
--   Base, Text, Maps  lists, tests and orders; texts as lists of code points; the standard maps
--                     and sets as association lists and ascending lists
--   Error             crates/util/src/mixed.rs: DceErr, and Outcome for a DceResult
--   Tree              crates/util/src/atom_tree.rs: ATree as an arena whose places are the Arcs
--   Api               crates/router/src/api.rs: Api::new and the order of suffixes
--   Request           crates/router/src/request.rs: Context and PathParam
--   Router            crates/router/src/router.rs: Router.Branch has the nodes of the tree,
--                     Router.Registry push and the map of closing, Router.Build build_tree
--                     and closing,
--                     Router.Search match_var_path and find_consider_suffix, Router.Locate locate.
--                     Router.Search.Leads states how the parts of a path lead through the tree
--   Serializer        crates/router/src/serializer.rs
--   Protocol          crates/router/src/protocol.rs: Meta and RoutableProtocol
--   Dispatch          handle, route and call_controller, from the protocol to the controller
--   Answers           crates/router/src/request.rs: the methods of Request
--   Cli               crates/protocols/cli/src/protocol.rs
--   Session           crates/session/src/session.rs: Session.Meta has the ids, Session.Hex the
--                     hexadecimal numbers in them, Session.Trait the methods of the trait;
--                     Session.Redis and Session.User have crates/session/src/redis.rs, user.rs;
--                     Session.Auto has crates/session/src/auto.rs, Session.Isize its arithmetic,
--                     Session.Renewal the contract of a renewal, Session.Connection has
--                     crates/session/src/connection.rs, and Session.Connected the sessions in
--                     redis with the feature connection, which fill its interface
--   Wire              crates/protocols/tokio/src/protocol.rs and tokio-tungstenite/src/protocol.rs:
--                     Wire has the packets that both read and print, Wire.Tcp and Wire.Websocket
--                     the two protocols; Text.Utf8 has the bytes of a text
--   Http              crates/protocols/hyper/src/protocol.rs and serializer.rs
--   Macros            crates/macro/src/router.rs and funcs.rs: the arguments of the macros
--   Apps              the programs in src: Apps.Access and Apps.Members have src/apis/session.rs,
--                     Apps.Greetings src/apis/http.rs, Apps.Clients src/apis/clients.rs, Apps.Commands
--                     src/apis/cli.rs, and Apps.Echo src/apis/tcp.rs, udp.rs and websocket.rs
--
-- Text is a list of code points. A character of the source that cuts a text is one byte long, so
-- that a cut by byte index is a cut by code point, or else the cut counts bytes. Hash maps are
-- association lists whose keys are there once; the order in which a hash map or set is gone through
-- is a parameter. A panic is an outcome. Numbers of the machine wrap around where the source casts
-- them, and a subtraction that does not fit panics.
--
-- A loop runs on fuel. match_var_path gets more fuel than its stack can weigh, build more than its
-- elements, closing one more than the apis, the walk up one more than the nodes; locate, which the
-- source sets no bound, is given the rounds as an argument.
--
-- Not modelled: the tokens that the procedural macros generate (crates/macro), the session
-- application over web sockets and that without async (src/apis/session_ws.rs, session_sync.rs), the
-- sockets that connections are accepted on, and contention for locks. The clock, random numbers, the
-- hash of sha2, serde_json, the commands of redis, the messages of tungstenite, the requests and
-- responses of hyper, the templates of sailfish, the expressions of syn, the controllers and the
-- protocol are parameters.
pub mod Base
pub mod Text
pub mod Maps
pub mod Error
pub mod Tree
pub mod Api
pub mod Request
pub mod Serializer
pub mod Protocol
pub mod Router
pub mod Dispatch
pub mod Answers
pub mod Cli
pub mod Session
pub mod Wire
pub mod Http
pub mod Macros
pub mod Apps
