-- ===== src/Console/Navigation/Tests.antt =====
-- Connecting to another server, and the switch of the language.
use go_live_streaming.Base.{◌≡◌, refl, some, [], ◌++◌, arith, length}
use go_live_streaming.Base.Text.{codes, join, index_of?, starts_with, text_eq}
use go_live_streaming.Base.Decimal.{dec}
use go_live_streaming.Console.Polling.{responds}
use go_live_streaming.Console.Server.{
  Location, Server, created, port_text, query_text, init, nav_query, queries_of, build_nav_url,
  without_query,
}
use go_live_streaming.Console.Navigation.{Place, Form, redirect, connect, on_versions}
use go_live_streaming.Console.Navigation.Opened.{connect-init}

abbrev there_before : Server
there_before = record created { host = codes "a" }

abbrev other : Form
other = record { schema = codes "http"; ip = codes "b"; port = query_text (codes "1985") }

abbrev page : Place
page = record {
  location = record {
    abs_url = codes "http://a/i.html#!/connect";
    protocol = codes "http";
    host = codes "a";
    port = 80;
    search = [];
  };
  path = codes "/connect";
}

abbrev opened : Location
unfolding connect
opened = record page.location { search = nav_query (connect other there_before).0 page.location }

no_query : without_query page.location.abs_url ≡ codes "http://a/i.html#!" ++ page.path
unfolding without_query index_of? starts_with
no_query = refl

at_end :
    index_of? (codes "http://a/i.html#!" ++ page.path) page.path
    ≡ some (length (codes "http://a/i.html#!"))
unfolding index_of? starts_with
at_end = refl

as_made : opened.search ≡ nav_query (connect other there_before).0 page.location
unfolding opened
as_made = refl

connect-init_example :
    ((on_versions other (connect other there_before).0 page (responds 200 0 (codes "5")) 0 []).1
      ≡ some (
          codes "http://a/i.html#!"
          ++ (codes "/summaries"
              ++ (codes "?"
                  ++ join
                      (queries_of (nav_query (connect other there_before).0 page.location))
                      (codes "&")))))
    × ((init opened created).schema ≡ other.schema)
    × ((init opened created).host ≡ other.ip)
    × (port_text (init opened created).port ≡ port_text other.port)
connect-init_example =
    connect-init other there_before created page opened (codes "http://a/i.html#!") (codes "5") 200
      0 [] (ground arith) (ground arith) (ground arith) no_query at_end as_made

-- The link to the other language.
to_english :
    redirect there_before page (codes "i.html") (codes "en.html")
    ≡ codes "http://a/en.html#!/connect?schema=http&host=a&port=1985"
unfolding redirect build_nav_url index_of? starts_with text_eq join dec
to_english = refl
