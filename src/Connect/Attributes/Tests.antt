-- ===== src/Connect/Attributes/Tests.antt =====
-- Runs of the connection attributes.
use pecl_database_mysql_xdev.Common.{◌≡◌, refl, true, [], ◌∷◌, none, ok, err, pass, fail, codes}
use pecl_database_mysql_xdev.Connect.Attributes.{
  Client, def_client_attribs, parse_conn_attrib, conn_attrib_dup_key, parse_attribute,
}
use pecl_database_mysql_xdev.Connect.Attributes.Again.{parse_conn_attrib-again}

abbrev client : Client
client = record { pid = codes "17"; os = codes "Linux"; platform = codes "x86_64"; hostname = none }

attribute_run : parse_attribute (codes "a=b") ≡ (codes "a", codes "b")
unfolding parse_attribute
attribute_run = refl

list_run :
    parse_conn_attrib client [] (codes "a=b,c") true
    ≡ ok (pass, (codes "a", codes "b") ∷ (codes "c", []) ∷ def_client_attribs client)
unfolding parse_conn_attrib
list_run = refl

own_run : parse_conn_attrib client [] (codes "a=b,_c=d") true ≡ ok (fail, [])
unfolding parse_conn_attrib
own_run = refl

twice_run : parse_conn_attrib client [] (codes "a=b,a=c") true ≡ err conn_attrib_dup_key
unfolding parse_conn_attrib
twice_run = refl

parse_conn_attrib-again_example :
    parse_conn_attrib client
      ((codes "a", codes "b") ∷ (codes "c", []) ∷ def_client_attribs client)
      (codes "a=b,,c")
      true
    ≡ err conn_attrib_dup_key
unfolding parse_conn_attrib
parse_conn_attrib-again_example =
    parse_conn_attrib-again client (codes "a=b,,c")
      ((codes "a", codes "b") ∷ (codes "c", []) ∷ def_client_attribs client) refl refl refl list_run
