-- ===== src/Authn/Device.antt =====
-- What a request says of its device (internal/authn/devicename.go, ip.go). `net.SplitHostPort` is a
-- parameter.
use Prim.Native.String.{◌++◌ as ◌<>◌}
use hss_science.Base.{String, Option, on_row, not, ◌==◌, ◌&&◌, ◌||◌, if◌then◌else◌}
use hss_science.Base.Text.{contains}

unfoldable pub parse_os : String → String
unfolding contains
parse_os ua =
    if contains ua "iPhone"
    then "iPhone"
    else (if contains ua "iPad"
        then "iPad"
        else (if contains ua "Android"
            then "Android"
            else (if contains ua "Windows"
                then "Windows"
                else (if contains ua "Macintosh" || contains ua "Mac OS X"
                    then "macOS"
                    else (if contains ua "Linux" then "Linux" else "")))))

unfoldable pub parse_browser : String → String
unfolding contains
parse_browser ua =
    if contains ua "Edg/"
    then "Edge"
    else (if contains ua "OPR/" || contains ua "Opera"
        then "Opera"
        else (if contains ua "Chrome"
            then "Chrome"
            else (if contains ua "Firefox"
                then "Firefox"
                else (if contains ua "Safari" && not (contains ua "Chrome")
                    then "Safari"
                    else ""))))

unfoldable pub parse_device_name : String → String
unfolding parse_os parse_browser
parse_device_name ua =
    let os = parse_os ua in
    let browser = parse_browser ua in
    if (browser == "") && (os == "")
    then "Unknown device"
    else (if browser == "" then os else (if os == "" then browser else browser <> (" on " <> os)))

-- `host` is that of `net.SplitHostPort`, `none` for an error.
unfoldable pub client_ip : (String → Option String) → String → String → String
client_ip split_host_port connecting_ip remote_addr =
    if not (connecting_ip == "")
    then connecting_ip
    else (on_row (split_host_port remote_addr) remote_addr (λ host. host))
