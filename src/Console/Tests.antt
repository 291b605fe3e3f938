-- ===== src/Console/Tests.antt =====
-- The console at concrete inputs.
use go_live_streaming.Base.{
  ℕ, ◌≤◌, ◌≡◌, ◌≢◌, refl, true, false, none, some, List, [], ◌∷◌, arith, length, drop, ◌++◌, ◌-◌,
}
use go_live_streaming.Base.Text.{Text, codes}
use go_live_streaming.Base.Decimal.{dec}
use go_live_streaming.Console.Filters.{
  sc_filter_filesize_k, sc_filter_bitrate_k, sc_filter_bitrate_k2,
}
use go_live_streaming.Console.Logs.{
  trace, warn, text, raw, absent, plain, object, on_log, on_http_error,
}
use go_live_streaming.Console.Logs.Laws.{
  Event, logs, ticks, run, AllExpired, run_bounded, on_http_error_cases,
}
use go_live_streaming.Console.Directive.{Config, array, fresh, edit}
use go_live_streaming.Console.Directive.Laws.{run_cancel, cancel-edit}
use go_live_streaming.Console.Server.{Server, Location, created, one, port_text, nav_query}
use go_live_streaming.Console.Summary.{Sample, Kbps, shows, opened, after}
use go_live_streaming.Console.Summary.Laws.{Current, opened-Current}

-- 1.005 is a double below it.
bitrate_below : sc_filter_bitrate_k 1005 ≡ codes "1.00Mbps"
unfolding sc_filter_bitrate_k dec
bitrate_below = refl

bitrate_half : sc_filter_bitrate_k2 1500 ≡ codes "2Mbps"
unfolding sc_filter_bitrate_k2 dec
bitrate_half = refl

filesize_test : sc_filter_filesize_k 1536 ≡ codes "1.50MB"
unfolding sc_filter_filesize_k dec
filesize_test = refl

abbrev four_logs : List Event
four_logs =
    logs warn (text (codes "a")) 0
    ∷ logs warn (text (codes "b")) 1
    ∷ logs trace (text (codes "c")) 2
    ∷ logs trace (text (codes "d")) 3
    ∷ []

expired : AllExpired 20000 (run [] four_logs)
unfolding on_log
expired = (omega arith, (omega arith, (omega arith, tt)))

run_bounded_example :
    (length (run [] four_logs) ≤ 3)
    × (run [] (four_logs ++ logs warn (text (codes "e")) 30000 ∷ [])
        ≡ drop (length (run [] four_logs) - 2) (run [] four_logs)
          ++ record { level = warn; msg = text (codes "e"); create = 30000 } ∷ [])
    × (run (run [] four_logs) (ticks 20000 ∷ ticks 23000 ∷ ticks 26000 ∷ []) ≡ [])
run_bounded_example =
    run_bounded four_logs 20000 20000 23000 26000 warn (text (codes "e")) 30000 expired
      (omega arith) (omega arith) (omega arith)

on_http_error_cases_example :
    (on_http_error 404 absent ≡ none)
    × (on_http_error 200 absent ≡ none)
    × (on_http_error 200 (plain (codes "x")) ≡ some (warn, raw (plain (codes "x"))))
    × (on_http_error 404 (plain (codes "x"))
        ≡ some (warn, text (codes "HTTP/" ++ dec 404 ++ codes ", " ++ codes "x")))
    × (on_http_error 200 (object 1061)
        ≡ some (trace, text (codes "code=" ++ dec 1061 ++ codes ", " ++ codes "RAW API被禁用")))
    × (on_http_error 404 (object 1061)
        ≡ some (trace, text (codes "HTTP/" ++ dec 404 ++ codes ", " ++ codes "[object Object]")))
on_http_error_cases_example = on_http_error_cases 404 1061 (codes "x") (omega arith)

abbrev arrays : Config
arrays = record { is_array = true; is_bool = false; default = none }

abbrev ports : List Text
ports = codes "1935" ∷ codes "19350" ∷ []

cancel-edit_example :
    ((edit arrays (fresh (some (array ports)))).1 ≡ false)
    × (run_cancel arrays (codes "80") (array ports) ≡ (fresh (some (array ports)), false))
cancel-edit_example = cancel-edit arrays (array ports) (codes "80") tt

abbrev server : Server
server = record created { host = codes "a.com" }

abbrev here : Location
here = record {
  abs_url = codes "http://a.com/console?eip=x";
  protocol = codes "http";
  host = codes "a.com";
  port = 80;
  search = (codes "eip", one (codes "x")) ∷ [];
}

abbrev there : Location
there = record here { search = nav_query server here }

schema_there : server.schema ≢ []
schema_there = ground arith

host_there : server.host ≢ []
host_there = ground arith

port_there : port_text server.port ≢ []
unfolding dec
port_there = ground arith

eip_schema : codes "eip" ≢ codes "schema"
eip_schema = ground arith

eip_host : codes "eip" ≢ codes "host"
eip_host = ground arith

eip_port : codes "eip" ≢ codes "port"
eip_port = ground arith

-- A sample at a time in milliseconds, with so many bytes received.
abbrev sample_at : ℕ → ℕ → Sample
sample_at now bytes = record {
  now_ms = now;
  net_sample_time = now;
  net_recv_bytes = bytes;
  net_recvi_bytes = bytes;
  net_send_bytes = bytes;
  net_sendi_bytes = bytes;
  srs_sample_time = now;
  srs_recv_bytes = bytes;
  srs_send_bytes = bytes;
}

opened-Current_example :
    (p : Sample) × (k : Kbps) × (after
        (sample_at 0 0 ∷ sample_at 3000 9000 ∷ sample_at 6000 9500 ∷ [])
        (some opened)
      ≡ some (shows p k))
    × Current (sample_at 6000 9500) (sample_at 3000 9000 ∷ sample_at 0 0 ∷ []) p k
opened-Current_example =
    opened-Current (sample_at 0 0) (sample_at 3000 9000 ∷ sample_at 6000 9500 ∷ [])
