-- ===== src/Lib.antt =====
-- The browser side of a live streaming site: the console that operates a media server, the pages
-- that play and publish streams, and the signalling of a call.
--
-- The parts, under live-streaming-web/nginx/html:
-- * console/js/winlin.utility.js, which every page includes, has the refreshers (Refresh.antt and
--   Refresh/Simple.antt), helpers for arrays and strings (Utility/Arrays.antt, Utility/Strings.antt)
--   and the parsers of queries and URLs (Urls/Query.antt, Urls/Rtmp.antt). The copy under players/js
--   differs in one default port, and Urls/Rtmp.antt has both.
-- * console/js/srs.console.js is the console. Its pages poll the server with MSCApi through the one
--   refresher `async_refresh2`: a page calls `refresh_change` and `request`, and asks again when the
--   answer comes. Console/Polling.antt composes the refresher, these pages, the interceptor of the
--   requests and the messages; a timer's callback sends a request, and its answer is an event.
--   Console/Objects.antt has the functions of `$sc_utility` on arrays and objects. Console/Server.antt
--   has `$sc_server`, `$sc_nav` and MSCApi; Console/Summary.antt the rates of CSCSummary;
--   Console/Logs.antt the messages of CSCMain, which `$sc_utility` sends it; Console/Filters.antt the
--   filters for numbers, and Console/Links.antt those for texts; Console/Directive.antt the controller
--   of `scDirective`, which edits one setting, and Console/Directive/Link.antt what it reads of its
--   attributes. Console/Streams.antt gives the streams their owners and has their filters and paths;
--   Console/Details.antt is the pages that ask once and show one thing (CSCVhost, CSCStream, CSCClient,
--   CSCConfigs), as a machine of requests and answers, in which what other pages have left under way may
--   change the messages and the refresher at any time; Console/Navigation.antt is CSCConnect and the
--   moves between the pages; Console/Collapse.antt is `scCollapse` with `find_siblings`.
--   Console/Alert.antt and Console/Alert/Popover.antt are the widgets bravo_alert/alert.js and
--   bravo_popover/popover.js.
-- * players/js/srs.player.js and players/js/srs.publisher.js drive Flash objects that call back by
--   id: Players/Player.antt, with Players/Fluency.antt for `__fluency`, and Players/Publisher.antt;
--   Players/SwfUrl.antt makes the URL of the Flash file, or throws where encodeURIComponent does.
--   players/js/srs.log.js is Players/Log.antt.
-- * players/js/srs.sdk.js turns a WebRTC URL into the URL of an API (`prepareUrl` and `parse`, in
--   Urls/Rtmp.antt) and publishes and plays with it: Sdk/Exchange.antt has the request and its answer,
--   Sdk/Session.antt one call of `publish` or `play` on an object of one of its three kinds, with a
--   stage for every `await`, and Sdk/WhipId.antt the id of a WHIP session, and Sdk/Senders.antt the
--   text of its codecs. Sdk/Demos.antt is the older copy demos/js/srs.sdk.js, which differs in the URL
--   parser, the test for https and the transport. players/js/srs.page.js makes the URLs that the pages
--   offer (Urls/Page.antt), and Urls/Page/Init.antt is what a page shows when it is opened.
--   Sdk/Internal.antt and Sdk/Demos/Internal.antt are the second copies of prepareUrl, parse and
--   fill_query, one for the publisher and one for the player. Urls/Offered.antt puts the two ends
--   together: what a page offers, as the SDK reads it.
-- * demos/js/srs.sig.js keeps promises for requests over a WebSocket: Signaling.antt. Its
--   SrsRtcSignalingParse reads the location of a page: Signaling/Parse.antt.
-- * console/js/srs.en.js and console/js/srs.cn.js have the routes and texts of the console in two
--   languages, Console/Routes.antt, and print times with sc_filter_time, Utility/Dates.antt. The dates
--   in local time and the browser agents of winlin.utility.js are Utility/Dates/Local.antt and
--   Utility/Agents.antt.
-- Base.antt and its children have what these share: strings as lists of character codes with the
-- methods of String.prototype (Base/Text.antt), decimal numbers and toFixed (Base/Decimal.antt),
-- doubles (Base/Double.antt), objects as dictionaries in the order of insertion (Base/Dict.antt), and
-- signed integers.
--
-- A function of the source is the function of the same name. State is passed on explicitly: an
-- object that others point to lives in a store under an index, an exception is a part of the
-- outcome, and what the browser, the user or the server does is a list of events in any order.
-- Constructors of events and commands are verbs. A property of an object that is null or undefined
-- is an Option.
--
-- Numbers are naturals: times are milliseconds, ids, ports and tids are numbers. The source computes
-- with doubles. Dividing a whole number by a power of two is exact; a bit rate that is divided by 1000
-- is rounded to a double at each division, and so is a percentage of a fraction (Base/Double.antt);
-- toFixed then rounds what the double is. The fluency, the days of a time and the rates of the server
-- are fractions that are not rounded. A loop that the source writes with `while` has fuel: the length
-- of the array or the string, plus one where a round may not shorten it. Each round before the last shortens what is left, so that this is
-- enough; the loops of `system_array_remove`, `system_string_trim`, `padding` and
-- SrsRtcSignalingParse return an Option that is empty when the fuel runs out.
--
-- Parameters stand for what is not in the repository: the anchor element that parses a URL, the
-- equality of array elements, the messages as JSON carries them, `JSON.parse` of a reply, the
-- time zone and `Date.parse` of the browser's dates, the classes of a node of the page. The peer
-- connection of the SDK is the list of the calls made on it, and what it resolves or rejects is an
-- event. What is drawn at random is an argument: the tid of `send`, `publish` and `play`, and the
-- display name of SrsRtcSignalingParse. A query has no key "user_query", which would overwrite the
-- field of that name. A browser that opens the preview link is a parameter too.
--
-- Not modelled: Angular, jQuery and the other third-party scripts; the templates of the directives
-- and the pages; the Flash objects and the browser's RTCPeerConnection; a second call on one object
-- of the SDK; where a popover stands; the parts of players/js/winlin.utility.js that repeat the
-- console's copy; the Vue application of live-streaming-web/src and the media servers, which are
-- other programs.
pub mod Base
pub mod Refresh
pub mod Utility
pub mod Players
pub mod Signaling
pub mod Sdk
pub mod Urls
pub mod Console
