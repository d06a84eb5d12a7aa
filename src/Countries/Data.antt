-- ===== src/Countries/Data.antt =====
-- src/modules/user/countries/data/countries.data.ts: the catalogue of countries.
use Prim.Native.String.{String}
use nestjs_boilerplate.Base.{List, [], ◌∷◌, ◌++◌, Text, codes}

pub record CountryRow : Type 0 where
  pub name : Text
  pub code : Text

abbrev row : String → String → CountryRow
row name code = record { name = codes name; code = codes code }

abbrev first_countries : List CountryRow
first_countries =
    row "Afghanistan" "AF"
    ∷ row "Åland Islands" "AX"
    ∷ row "Albania" "AL"
    ∷ row "Algeria" "DZ"
    ∷ row "American Samoa" "AS"
    ∷ row "Andorra" "AD"
    ∷ row "Angola" "AO"
    ∷ row "Anguilla" "AI"
    ∷ row "Antarctica" "AQ"
    ∷ row "Antigua and Barbuda" "AG"
    ∷ row "Argentina" "AR"
    ∷ row "Armenia" "AM"
    ∷ row "Aruba" "AW"
    ∷ row "Australia" "AU"
    ∷ row "Austria" "AT"
    ∷ row "Azerbaijan" "AZ"
    ∷ row "Bahamas" "BS"
    ∷ row "Bahrain" "BH"
    ∷ row "Bangladesh" "BD"
    ∷ row "Barbados" "BB"
    ∷ row "Belarus" "BY"
    ∷ row "Belgium" "BE"
    ∷ row "Belize" "BZ"
    ∷ row "Benin" "BJ"
    ∷ row "Bermuda" "BM"
    ∷ row "Bhutan" "BT"
    ∷ row "Bolivia, Plurinational State of" "BO"
    ∷ row "Bonaire, Sint Eustatius and Saba" "BQ"
    ∷ row "Bosnia and Herzegovina" "BA"
    ∷ row "Botswana" "BW"
    ∷ row "Bouvet Island" "BV"
    ∷ row "Brazil" "BR"
    ∷ row "British Indian Ocean Territory" "IO"
    ∷ row "Brunei Darussalam" "BN"
    ∷ row "Bulgaria" "BG"
    ∷ row "Burkina Faso" "BF"
    ∷ row "Burundi" "BI"
    ∷ row "Cambodia" "KH"
    ∷ row "Cameroon" "CM"
    ∷ row "Canada" "CA"
    ∷ row "Cape Verde" "CV"
    ∷ row "Cayman Islands" "KY"
    ∷ row "Central African Republic" "CF"
    ∷ row "Chad" "TD"
    ∷ row "Chile" "CL"
    ∷ row "China" "CN"
    ∷ row "Christmas Island" "CX"
    ∷ row "Cocos (Keeling) Islands" "CC"
    ∷ row "Colombia" "CO"
    ∷ row "Comoros" "KM"
    ∷ row "Congo" "CG"
    ∷ row "Congo, the Democratic Republic of the" "CD"
    ∷ row "Cook Islands" "CK"
    ∷ row "Costa Rica" "CR"
    ∷ row "Côte d'Ivoire" "CI"
    ∷ row "Croatia" "HR"
    ∷ row "Cuba" "CU"
    ∷ row "Curaçao" "CW"
    ∷ row "Cyprus" "CY"
    ∷ row "Czech Republic" "CZ"
    ∷ row "Denmark" "DK"
    ∷ row "Djibouti" "DJ"
    ∷ row "Dominica" "DM"
    ∷ row "Dominican Republic" "DO"
    ∷ row "Ecuador" "EC"
    ∷ row "Egypt" "EG"
    ∷ row "El Salvador" "SV"
    ∷ row "Equatorial Guinea" "GQ"
    ∷ row "Eritrea" "ER"
    ∷ row "Estonia" "EE"
    ∷ row "Ethiopia" "ET"
    ∷ row "Falkland Islands (Malvinas)" "FK"
    ∷ row "Faroe Islands" "FO"
    ∷ row "Fiji" "FJ"
    ∷ row "Finland" "FI"
    ∷ row "France" "FR"
    ∷ row "French Guiana" "GF"
    ∷ row "French Polynesia" "PF"
    ∷ row "French Southern Territories" "TF"
    ∷ row "Gabon" "GA"
    ∷ row "Gambia" "GM"
    ∷ row "Georgia" "GE"
    ∷ row "Germany" "DE"
    ∷ row "Ghana" "GH"
    ∷ row "Gibraltar" "GI"
    ∷ row "Greece" "GR"
    ∷ row "Greenland" "GL"
    ∷ row "Grenada" "GD"
    ∷ row "Guadeloupe" "GP"
    ∷ row "Guam" "GU"
    ∷ row "Guatemala" "GT"
    ∷ row "Guernsey" "GG"
    ∷ row "Guinea" "GN"
    ∷ row "Guinea-Bissau" "GW"
    ∷ row "Guyana" "GY"
    ∷ row "Haiti" "HT"
    ∷ row "Heard Island and McDonald Islands" "HM"
    ∷ row "Holy See (Vatican City State)" "VA"
    ∷ row "Honduras" "HN"
    ∷ row "Hong Kong" "HK"
    ∷ row "Hungary" "HU"
    ∷ row "Iceland" "IS"
    ∷ row "India" "IN"
    ∷ row "Indonesia" "ID"
    ∷ row "Iran, Islamic Republic of" "IR"
    ∷ row "Iraq" "IQ"
    ∷ row "Ireland" "IE"
    ∷ row "Isle of Man" "IM"
    ∷ row "Israel" "IL"
    ∷ row "Italy" "IT"
    ∷ row "Jamaica" "JM"
    ∷ row "Japan" "JP"
    ∷ row "Jersey" "JE"
    ∷ row "Jordan" "JO"
    ∷ row "Kazakhstan" "KZ"
    ∷ row "Kenya" "KE"
    ∷ row "Kiribati" "KI"
    ∷ row "Korea, Democratic People's Republic of" "KP"
    ∷ row "Korea, Republic of" "KR"
    ∷ row "Kuwait" "KW"
    ∷ row "Kyrgyzstan" "KG"
    ∷ row "Lao People's Democratic Republic" "LA"
    ∷ row "Latvia" "LV"
    ∷ row "Lebanon" "LB"
    ∷ row "Lesotho" "LS"
    ∷ []

abbrev last_countries : List CountryRow
last_countries =
    row "Liberia" "LR"
    ∷ row "Libya" "LY"
    ∷ row "Liechtenstein" "LI"
    ∷ row "Lithuania" "LT"
    ∷ row "Luxembourg" "LU"
    ∷ row "Macao" "MO"
    ∷ row "Macedonia, the Former Yugoslav Republic of" "MK"
    ∷ row "Madagascar" "MG"
    ∷ row "Malawi" "MW"
    ∷ row "Malaysia" "MY"
    ∷ row "Maldives" "MV"
    ∷ row "Mali" "ML"
    ∷ row "Malta" "MT"
    ∷ row "Marshall Islands" "MH"
    ∷ row "Martinique" "MQ"
    ∷ row "Mauritania" "MR"
    ∷ row "Mauritius" "MU"
    ∷ row "Mayotte" "YT"
    ∷ row "Mexico" "MX"
    ∷ row "Micronesia, Federated States of" "FM"
    ∷ row "Moldova, Republic of" "MD"
    ∷ row "Monaco" "MC"
    ∷ row "Mongolia" "MN"
    ∷ row "Montenegro" "ME"
    ∷ row "Montserrat" "MS"
    ∷ row "Morocco" "MA"
    ∷ row "Mozambique" "MZ"
    ∷ row "Myanmar" "MM"
    ∷ row "Namibia" "NA"
    ∷ row "Nauru" "NR"
    ∷ row "Nepal" "NP"
    ∷ row "Netherlands" "NL"
    ∷ row "New Caledonia" "NC"
    ∷ row "New Zealand" "NZ"
    ∷ row "Nicaragua" "NI"
    ∷ row "Niger" "NE"
    ∷ row "Nigeria" "NG"
    ∷ row "Niue" "NU"
    ∷ row "Norfolk Island" "NF"
    ∷ row "Northern Mariana Islands" "MP"
    ∷ row "Norway" "NO"
    ∷ row "Oman" "OM"
    ∷ row "Pakistan" "PK"
    ∷ row "Palau" "PW"
    ∷ row "Palestine, State of" "PS"
    ∷ row "Panama" "PA"
    ∷ row "Papua New Guinea" "PG"
    ∷ row "Paraguay" "PY"
    ∷ row "Peru" "PE"
    ∷ row "Philippines" "PH"
    ∷ row "Pitcairn" "PN"
    ∷ row "Poland" "PL"
    ∷ row "Portugal" "PT"
    ∷ row "Puerto Rico" "PR"
    ∷ row "Qatar" "QA"
    ∷ row "Réunion" "RE"
    ∷ row "Romania" "RO"
    ∷ row "Russian Federation" "RU"
    ∷ row "Rwanda" "RW"
    ∷ row "Saint Barthélemy" "BL"
    ∷ row "Saint Helena, Ascension and Tristan da Cunha" "SH"
    ∷ row "Saint Kitts and Nevis" "KN"
    ∷ row "Saint Lucia" "LC"
    ∷ row "Saint Martin (French part)" "MF"
    ∷ row "Saint Pierre and Miquelon" "PM"
    ∷ row "Saint Vincent and the Grenadines" "VC"
    ∷ row "Samoa" "WS"
    ∷ row "San Marino" "SM"
    ∷ row "Sao Tome and Principe" "ST"
    ∷ row "Saudi Arabia" "SA"
    ∷ row "Senegal" "SN"
    ∷ row "Serbia" "RS"
    ∷ row "Seychelles" "SC"
    ∷ row "Sierra Leone" "SL"
    ∷ row "Singapore" "SG"
    ∷ row "Sint Maarten (Dutch part)" "SX"
    ∷ row "Slovakia" "SK"
    ∷ row "Slovenia" "SI"
    ∷ row "Solomon Islands" "SB"
    ∷ row "Somalia" "SO"
    ∷ row "South Africa" "ZA"
    ∷ row "South Georgia and the South Sandwich Islands" "GS"
    ∷ row "South Sudan" "SS"
    ∷ row "Spain" "ES"
    ∷ row "Sri Lanka" "LK"
    ∷ row "Sudan" "SD"
    ∷ row "Suriname" "SR"
    ∷ row "Svalbard and Jan Mayen" "SJ"
    ∷ row "Eswatini" "SZ"
    ∷ row "Sweden" "SE"
    ∷ row "Switzerland" "CH"
    ∷ row "Syrian Arab Republic" "SY"
    ∷ row "Taiwan, Province of China" "TW"
    ∷ row "Tajikistan" "TJ"
    ∷ row "Tanzania, United Republic of" "TZ"
    ∷ row "Thailand" "TH"
    ∷ row "Timor-Leste" "TL"
    ∷ row "Togo" "TG"
    ∷ row "Tokelau" "TK"
    ∷ row "Tonga" "TO"
    ∷ row "Trinidad and Tobago" "TT"
    ∷ row "Tunisia" "TN"
    ∷ row "Turkey" "TR"
    ∷ row "Turkmenistan" "TM"
    ∷ row "Turks and Caicos Islands" "TC"
    ∷ row "Tuvalu" "TV"
    ∷ row "Uganda" "UG"
    ∷ row "Ukraine" "UA"
    ∷ row "United Arab Emirates" "AE"
    ∷ row "United Kingdom" "GB"
    ∷ row "United States" "US"
    ∷ row "United States Minor Outlying Islands" "UM"
    ∷ row "Uruguay" "UY"
    ∷ row "Uzbekistan" "UZ"
    ∷ row "Vanuatu" "VU"
    ∷ row "Venezuela, Bolivarian Republic of" "VE"
    ∷ row "Viet Nam" "VN"
    ∷ row "Virgin Islands, British" "VG"
    ∷ row "Virgin Islands, U.S." "VI"
    ∷ row "Wallis and Futuna" "WF"
    ∷ row "Western Sahara" "EH"
    ∷ row "Yemen" "YE"
    ∷ row "Zambia" "ZM"
    ∷ row "Zimbabwe" "ZW"
    ∷ []

unfoldable pub countries_data : List CountryRow
countries_data = first_countries ++ last_countries
