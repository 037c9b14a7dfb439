-- ===== src/Token/Kind.antt =====
-- The constants of pkg/parser/api/token/token.go: `Type` is an int, numbered by iota.
use goctl.Base.{ℕ}

abbrev pub TokenType : Type 0
TokenType = ℕ

abbrev pub token_bg : TokenType
token_bg = 0

abbrev pub error : TokenType
error = 1

abbrev pub illegal : TokenType
illegal = 2

abbrev pub eof : TokenType
eof = 3

abbrev pub comment : TokenType
comment = 4

abbrev pub document : TokenType
document = 5

abbrev pub literal_beg : TokenType
literal_beg = 6

abbrev pub ident : TokenType
ident = 7

abbrev pub int : TokenType
int = 8

abbrev pub duration : TokenType
duration = 9

abbrev pub string : TokenType
string = 10

abbrev pub raw_string : TokenType
raw_string = 11

abbrev pub path : TokenType
path = 12

abbrev pub key : TokenType
key = 13

abbrev pub literal_end : TokenType
literal_end = 14

abbrev pub operator_beg : TokenType
operator_beg = 15

abbrev pub sub : TokenType
sub = 16

abbrev pub mul : TokenType
mul = 17

abbrev pub quo : TokenType
quo = 18

abbrev pub assign : TokenType
assign = 19

abbrev pub lparen : TokenType
lparen = 20

abbrev pub lbrack : TokenType
lbrack = 21

abbrev pub lbrace : TokenType
lbrace = 22

abbrev pub comma : TokenType
comma = 23

abbrev pub dot : TokenType
dot = 24

abbrev pub rparen : TokenType
rparen = 25

abbrev pub rbrace : TokenType
rbrace = 26

abbrev pub rbrack : TokenType
rbrack = 27

abbrev pub semicolon : TokenType
semicolon = 28

abbrev pub colon : TokenType
colon = 29

abbrev pub ellipsis : TokenType
ellipsis = 30

abbrev pub operator_end : TokenType
operator_end = 31

abbrev pub golang_keyword_beg : TokenType
golang_keyword_beg = 32

abbrev pub break_kw : TokenType
break_kw = 33

abbrev pub case_kw : TokenType
case_kw = 34

abbrev pub chan_kw : TokenType
chan_kw = 35

abbrev pub const_kw : TokenType
const_kw = 36

abbrev pub continue_kw : TokenType
continue_kw = 37

abbrev pub default_kw : TokenType
default_kw = 38

abbrev pub defer_kw : TokenType
defer_kw = 39

abbrev pub else_kw : TokenType
else_kw = 40

abbrev pub fallthrough_kw : TokenType
fallthrough_kw = 41

abbrev pub for_kw : TokenType
for_kw = 42

abbrev pub func_kw : TokenType
func_kw = 43

abbrev pub go_kw : TokenType
go_kw = 44

abbrev pub goto_kw : TokenType
goto_kw = 45

abbrev pub if_kw : TokenType
if_kw = 46

abbrev pub import_kw : TokenType
import_kw = 47

abbrev pub interface_kw : TokenType
interface_kw = 48

abbrev pub map_kw : TokenType
map_kw = 49

abbrev pub package_kw : TokenType
package_kw = 50

abbrev pub range_kw : TokenType
range_kw = 51

abbrev pub return_kw : TokenType
return_kw = 52

abbrev pub select_kw : TokenType
select_kw = 53

abbrev pub struct_kw : TokenType
struct_kw = 54

abbrev pub switch_kw : TokenType
switch_kw = 55

abbrev pub type_kw : TokenType
type_kw = 56

abbrev pub var_kw : TokenType
var_kw = 57

abbrev pub golang_keyword_end : TokenType
golang_keyword_end = 58

abbrev pub api_keyword_bg : TokenType
api_keyword_bg = 59

abbrev pub at_doc : TokenType
at_doc = 60

abbrev pub at_handler : TokenType
at_handler = 61

abbrev pub at_server : TokenType
at_server = 62

abbrev pub any : TokenType
any = 63

abbrev pub api_keyword_end : TokenType
api_keyword_end = 64

abbrev pub token_end : TokenType
token_end = 65
